-- ===== src/Sources/Merge.antt =====
-- What `mergeSources` gathers.
use rules_proto.Base.{Text, List, [], ◌∷◌, ◌++◌, ◌≡◌, refl, ◌∙◌, text_eq, ◌==◌}
use rules_proto.Base.{sym, ap, if◌then◌else◌, inl, inr, Bool-cases, append-nil, append_assoc}
use rules_proto.Base.{is_empty, Option, some, none, bytes, map}
use rules_proto.Base.Dict.{Dict, lookup, insert, lookup-insert, copy_into}
use rules_proto.Go.Strings.{trim_prefix}
use rules_proto.Go.Paths.{path_base}
use rules_proto.Sources.{
  PluginConfiguration, Merged, merge_sources, merge_plugins, merge_plugin, merge_outputs,
  merge_output, output_dir,
}

-- The name under which a rule refers to an output.
abbrev source_name : Text → Text → Text
source_name rel filename =
    if output_dir rel filename == rel
    then trim_prefix filename (rel ++ bytes "/")
    else path_base filename

-- The mapping that an output needs: none in the package of the rule.
abbrev output_mappings : Text → List Text → Dict Text Text
output_mappings rel [] = []
output_mappings rel (f ∷ outputs) =
    (if output_dir rel f == rel then [] else (path_base f, f) ∷ []) ++ output_mappings rel outputs

-- The sources and mappings of all plugins: those the plugin gives, or else those its outputs need.
abbrev pub sources_of : Text → List PluginConfiguration → List Text
sources_of rel [] = []
sources_of rel (p ∷ plugins) =
    (if is_empty p.mappings then map (source_name rel) p.outputs else p.outputs)
    ++ sources_of rel plugins

abbrev pub mappings_of : Text → List PluginConfiguration → Dict Text Text
mappings_of rel [] = []
mappings_of rel (p ∷ plugins) =
    (if is_empty p.mappings then output_mappings rel p.outputs else p.mappings)
    ++ mappings_of rel plugins

-- The value of the last entry of a key, or else the given one.
abbrev pub last_or : Text → Option Text → Dict Text Text → Option Text
last_or k v [] = v
last_or k v ((j, w) ∷ d) = last_or k (if j == k then some w else v) d

last_or-append :
    (k : Text) (c d : Dict Text Text) (v : Option Text)
    → last_or k v (c ++ d) ≡ last_or k (last_or k v c) d
last_or-append k [] d v = refl
last_or-append k ((j, w) ∷ c) d v = last_or-append k c d (if j == k then some w else v)

lookup-copy_into :
    (k : Text) (d c : Dict Text Text) → lookup k (copy_into d c) ≡ last_or k (lookup k d) c
unfolding copy_into
lookup-copy_into k d [] = refl
lookup-copy_into k d ((j, w) ∷ c) =
    lookup-copy_into k (insert j w d) c ∙ ap (λ v. last_or k v c) (lookup-insert j k w d)

srcs-merge_output :
    (rel : Text) (m : Merged) (f : Text)
    → (merge_output rel m f).srcs ≡ m.srcs ++ source_name rel f ∷ []
unfolding merge_output
srcs-merge_output rel m f = elim (Bool-cases (output_dir rel f == rel)) [
  | inl e ↦ rw e refl
  | inr e ↦ rw e refl
]

lookup-merge_output :
    (k rel : Text) (m : Merged) (f : Text)
    → lookup k (merge_output rel m f).mappings
      ≡ last_or k
          (lookup k m.mappings)
          (if output_dir rel f == rel then [] else (path_base f, f) ∷ [])
unfolding merge_output
lookup-merge_output k rel m f = elim (Bool-cases (output_dir rel f == rel)) [
  | inl e ↦ rw e refl
  | inr e ↦ rw e (lookup-insert (path_base f) k f m.mappings)
]

srcs-merge_outputs :
    (rel : Text) (m : Merged) (outputs : List Text)
    → (merge_outputs rel m outputs).srcs ≡ m.srcs ++ map (source_name rel) outputs
unfolding merge_outputs merge_output
srcs-merge_outputs rel m [] = sym (append-nil m.srcs)
srcs-merge_outputs rel m (f ∷ outputs) =
    srcs-merge_outputs rel (merge_output rel m f) outputs
    ∙ ap (λ l. l ++ map (source_name rel) outputs) (srcs-merge_output rel m f)
    ∙ append_assoc m.srcs _ _

lookup-merge_outputs :
    (k rel : Text) (m : Merged) (outputs : List Text)
    → lookup k (merge_outputs rel m outputs).mappings
      ≡ last_or k (lookup k m.mappings) (output_mappings rel outputs)
unfolding merge_outputs merge_output
lookup-merge_outputs k rel m [] = refl
lookup-merge_outputs k rel m (f ∷ outputs) =
    lookup-merge_outputs k rel (merge_output rel m f) outputs
    ∙ ap (λ v. last_or k v (output_mappings rel outputs)) (lookup-merge_output k rel m f)
    ∙ sym (
        last_or-append k (if output_dir rel f == rel then [] else (path_base f, f) ∷ [])
          (output_mappings rel outputs) (lookup k m.mappings))

srcs-merge_plugin :
    (rel : Text) (m : Merged) (p : PluginConfiguration)
    → (merge_plugin rel m p).srcs
      ≡ m.srcs ++ (if is_empty p.mappings then map (source_name rel) p.outputs else p.outputs)
unfolding merge_plugin
srcs-merge_plugin rel m p = elim (Bool-cases (is_empty p.mappings)) [
  | inl e ↦ rw e (srcs-merge_outputs rel m p.outputs)
  | inr e ↦ rw e refl
]

lookup-merge_plugin :
    (k rel : Text) (m : Merged) (p : PluginConfiguration)
    → lookup k (merge_plugin rel m p).mappings
      ≡ last_or k
          (lookup k m.mappings)
          (if is_empty p.mappings then output_mappings rel p.outputs else p.mappings)
unfolding merge_plugin
lookup-merge_plugin k rel m p = elim (Bool-cases (is_empty p.mappings)) [
  | inl e ↦ rw e (lookup-merge_outputs k rel m p.outputs)
  | inr e ↦ rw e (lookup-copy_into k m.mappings p.mappings)
]

srcs-merge_plugins :
    (rel : Text) (m : Merged) (plugins : List PluginConfiguration)
    → (merge_plugins rel m plugins).srcs ≡ m.srcs ++ sources_of rel plugins
unfolding merge_plugins merge_plugin
srcs-merge_plugins rel m [] = sym (append-nil m.srcs)
srcs-merge_plugins rel m (p ∷ plugins) =
    srcs-merge_plugins rel (merge_plugin rel m p) plugins
    ∙ ap (λ l. l ++ sources_of rel plugins) (srcs-merge_plugin rel m p)
    ∙ append_assoc m.srcs _ _

lookup-merge_plugins :
    (k rel : Text) (m : Merged) (plugins : List PluginConfiguration)
    → lookup k (merge_plugins rel m plugins).mappings
      ≡ last_or k (lookup k m.mappings) (mappings_of rel plugins)
unfolding merge_plugins merge_plugin
lookup-merge_plugins k rel m [] = refl
lookup-merge_plugins k rel m (p ∷ plugins) =
    lookup-merge_plugins k rel (merge_plugin rel m p) plugins
    ∙ ap (λ v. last_or k v (mappings_of rel plugins)) (lookup-merge_plugin k rel m p)
    ∙ sym (
        last_or-append k (if is_empty p.mappings then output_mappings rel p.outputs else p.mappings)
          (mappings_of rel plugins) (lookup k m.mappings))

-- The sources are those of all plugins in order, and a source is mapped as the last of the
-- mappings of all plugins says.
pub merge_sources_lem :
    (rel k : Text) (plugins : List PluginConfiguration)
    → ((merge_sources rel plugins).srcs ≡ sources_of rel plugins)
      × (lookup k (merge_sources rel plugins).mappings ≡ last_or k none (mappings_of rel plugins))
unfolding merge_sources lookup
merge_sources_lem rel k plugins = (
  srcs-merge_plugins rel _ plugins,
  lookup-merge_plugins k rel (record { srcs = []; mappings = [] }) plugins,
)
