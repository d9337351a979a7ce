-- ===== src/Tests.antt =====
-- Runs of the definitions, and the theorems at concrete inputs, over labels that are written by
-- their name and expressions that match one text.
mod Config
mod Resolver
mod Files
mod Generation
mod Packages
mod Rules
mod Language
use rules_proto.Base.{
  Text, bytes, List, [], ◌∷◌, ◌≡◌, refl, none, some, ◌==◌, text_eq, if◌then◌else◌, true, false,
}
use rules_proto.External.{External, Label, new_label}
use rules_proto.Go.Paths.{path_join, path_dir, path_base, path_ext, clean}
use rules_proto.Go.Strings.{fields, trim_space, has_prefix}
use rules_proto.Intent.{parse_intent}

abbrev pub lib : Label
lib = new_label [] [] (bytes "lib")

-- One label, `lib`, and expressions that match the text they are.
abbrev pub ext : External
ext = record {
  parse_label = λ s. if s == bytes "lib" then some lib else none;
  label_string = λ l. l.name;
  label_rel = λ l repo pkg. l;
  compiles = λ s. true;
  replace_all_string = λ pattern src repl. if src == pattern then repl else src;
}

path_join_test : path_join (bytes "a/b" ∷ bytes "../c.proto" ∷ []) ≡ bytes "a/c.proto"
unfolding path_join
path_join_test = refl

path_join_test_root : path_join ([] ∷ bytes "c.proto" ∷ []) ≡ bytes "c.proto"
unfolding path_join
path_join_test_root = refl

path_dir_test : path_dir (bytes "a/b/c.proto") ≡ bytes "a/b"
unfolding path_dir
path_dir_test = refl

path_dir_test_bare : path_dir (bytes "c.proto") ≡ bytes "."
unfolding path_dir
path_dir_test_bare = refl

path_base_test : path_base (bytes "a/b/c.proto") ≡ bytes "c.proto"
unfolding path_base
path_base_test = refl

path_ext_test : path_ext (bytes "a.b/c.proto") ≡ bytes ".proto"
unfolding path_ext
path_ext_test = refl

clean_test : clean (bytes "/a/../../b/./c//") ≡ bytes "/b/c"
unfolding clean
clean_test = refl

fields_test : fields (bytes " cpp  +option x ") ≡ bytes "cpp" ∷ bytes "+option" ∷ bytes "x" ∷ []
unfolding fields
fields_test = refl

parse_intent_test : parse_intent (bytes " -x ") ≡ record { value = bytes "x"; want = false }
unfolding parse_intent has_prefix trim_space
parse_intent_test = refl
