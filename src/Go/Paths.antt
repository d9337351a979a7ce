-- ===== src/Go/Paths.antt =====
-- Packages `path` and `path/filepath`, which agree on the paths of this program.
use mathlib.Core.List.{reverse}
use rules_proto.Base.{ℕ, Text, bytes, Bool, true, false, List, [], ◌∷◌, ◌++◌, ◌||◌}
use rules_proto.Base.{◌==◌, ◌=ℕ◌, text_eq, text_beq, if◌then◌else◌, is_empty}
use rules_proto.Go.Strings.{split, join, has_prefix}

-- '/' and '.'
abbrev pub slash : ℕ
slash = 47

abbrev pub dot : ℕ
dot = 46

-- One component against the cleaned components before it, the last first.
clean_part : Bool → List Text → Text → List Text
clean_part rooted out part =
    if part == [] || part == bytes "."
    then out
    else if part == bytes ".."
    then climb rooted out
    else part ∷ out
  where
    climb : Bool → List Text → List Text
    climb true [] = []
    climb false [] = bytes ".." ∷ []
    climb rooted (top ∷ out) = if top == bytes ".." then bytes ".." ∷ top ∷ out else out

clean_parts : Bool → List Text → List Text → List Text
clean_parts rooted out [] = out
clean_parts rooted out (part ∷ parts) = clean_parts rooted (clean_part rooted out part) parts

abbrev or_dot : Text → Text
or_dot [] = bytes "."
or_dot (c ∷ s) = c ∷ s

-- `path.Clean(p)`
unfoldable pub clean : Text → Text
unfolding clean_parts clean_part split join has_prefix text_beq
clean p =
    let rooted = has_prefix p (slash ∷ []) in
    let parts = join (reverse (clean_parts rooted [] (split slash p))) (slash ∷ []) in
    if rooted then slash ∷ parts else or_dot parts

-- `path.Join(elems...)`
join_raw : Text → List Text → Text
join_raw buf [] = buf
join_raw buf (e ∷ es) = join_raw (if is_empty buf then e else buf ++ (slash ∷ e)) es

unfoldable pub path_join : List Text → Text
unfolding join_raw clean
path_join elems = let buf = join_raw [] elems in if is_empty buf then [] else clean buf

-- The bytes of a reversed path before its first slash, and those from the slash on.
until_slash : Text → Text
until_slash [] = []
until_slash (c ∷ s) = let rest = until_slash s in if c =ℕ slash then [] else c ∷ rest

from_slash : Text → Text
from_slash [] = []
from_slash (c ∷ s) = let rest = from_slash s in if c =ℕ slash then c ∷ s else rest

drop_slashes : Text → Text
drop_slashes [] = []
drop_slashes (c ∷ s) = let rest = drop_slashes s in if c =ℕ slash then rest else c ∷ s

abbrev or_slash : Text → Text
or_slash [] = slash ∷ []
or_slash (c ∷ s) = c ∷ s

-- `path.Base(p)`
unfoldable pub path_base : Text → Text
unfolding until_slash drop_slashes
path_base [] = bytes "."
path_base (c ∷ s) = or_slash (reverse (until_slash (drop_slashes (reverse (c ∷ s)))))

-- `path.Dir(p)`
unfoldable pub path_dir : Text → Text
unfolding from_slash clean
path_dir p = clean (reverse (from_slash (reverse p)))

-- The extension of a reversed last component, the bytes from its last dot on.
ext_from : Text → Text → Text
ext_from seen [] = []
ext_from seen (c ∷ s) =
    let rest = ext_from (c ∷ seen) s in
    if c =ℕ slash then [] else if c =ℕ dot then c ∷ seen else rest

-- `path.Ext(p)`
unfoldable pub path_ext : Text → Text
unfolding ext_from
path_ext p = ext_from [] (reverse p)
