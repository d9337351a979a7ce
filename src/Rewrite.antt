-- ===== src/Rewrite.antt =====
-- pkg/protoc/rewrite.go: rewrites of import names by regular expressions.
pub mod First
use rules_proto.Base.{Text, Bool, true, false, List, [], ◌∷◌, ◌++◌, Option, none, some, ℕ}
use rules_proto.Base.{◌==◌, text_eq, if◌then◌else◌, is_empty, length}
use rules_proto.Go.Strings.{fields}
use rules_proto.Dedup.{deduplicate_and_sort}
use rules_proto.External.{External}

-- `match` is the compiled expression's pattern, `none` for a nil pointer.
pub record Rewrite : Type 0 where
  pub match : Option Text
  pub replace : Text

pub data RewriteError : Type 0 where
  field_count : ℕ → RewriteError
  bad_regexp : Text → RewriteError

pub data ParsedRewrite : Type 0 where
  parsed : Rewrite → ParsedRewrite
  failed : RewriteError → ParsedRewrite

module _ (ext : External) where
  open ext use {compiles, replace_all_string}

  -- `Rewrite.ReplaceAll`
  unfoldable pub replace_all : Rewrite → Text → Text
  replace_all r src = elim r.match [
    | none ↦ []
    | some match ↦
        let replaced = replace_all_string match src r.replace in
        if src == replaced then [] else replaced
  ]

  compile_parts : List Text → ParsedRewrite
  compile_parts (pattern ∷ replacement ∷ []) =
      if compiles pattern
      then parsed (record { match = some pattern; replace = replacement })
      else failed (bad_regexp pattern)
  compile_parts parts = failed (field_count (length parts))

  -- `ParseRewrite`
  unfoldable pub parse_rewrite : Text → ParsedRewrite
  unfolding compile_parts
  parse_rewrite spec = compile_parts (fields spec)

  -- `ResolveRewrites`; the early return on an empty list returns what the loop does.
  unfoldable pub resolve_rewrites : List Rewrite → Text → Text
  resolve_rewrites [] input = []
  resolve_rewrites (rw_ ∷ rewrites) input =
      let match = replace_all rw_ input in
      let rest = resolve_rewrites rewrites input in if is_empty match then rest else match

  -- The loop of `ResolveFileRewrites`; a file is the list of the names it imports.
  resolve_imports : List Rewrite → List Text → List Text
  resolve_imports rewrites [] = []
  resolve_imports rewrites (filename ∷ imports) =
      let m = resolve_rewrites rewrites filename in
      let rest = resolve_imports rewrites imports in if is_empty m then rest else m ∷ rest

  -- `ResolveFileRewrites`
  unfoldable pub resolve_file_rewrites : List Rewrite → List Text → List Text
  unfolding resolve_imports
  resolve_file_rewrites [] imports = []
  resolve_file_rewrites (rw_ ∷ rewrites) imports = resolve_imports (rw_ ∷ rewrites) imports

  -- The loop of `ResolveLibraryRewrites` over the files of the library.
  resolve_files : List Rewrite → List (List Text) → List Text
  resolve_files rewrites [] = []
  resolve_files rewrites (file ∷ files) =
      resolve_file_rewrites rewrites file ++ resolve_files rewrites files

  -- `ResolveLibraryRewrites`
  unfoldable pub resolve_library_rewrites : List Rewrite → List (List Text) → List Text
  unfolding resolve_files
  resolve_library_rewrites [] files = []
  resolve_library_rewrites (rw_ ∷ rewrites) files =
      deduplicate_and_sort (resolve_files (rw_ ∷ rewrites) files)
