-- ===== src/Tests/Resolver.antt =====
-- The theorems on the resolver at concrete inputs.
use rules_proto.Base.{Text, bytes, List, [], ◌∷◌, ◌++◌, ◌≡◌, refl, none, some, ◌==◌, text_eq}
use rules_proto.Base.{contains, if◌then◌else◌, ◌&&◌, All, text_beq}
use rules_proto.Base.Dict.{keys, lookup, insert, or_zero}
use rules_proto.Base.Sort.{sort_strings}
use rules_proto.Go.Strings.{Lacks, has_prefix}
use rules_proto.External.{label_eq, new_label}
use rules_proto.Tests.{ext, lib}
use rules_proto.Resolver.{Resolver, new, lang_key, key_lang, resolve, provide}
use rules_proto.Resolver.Keys.{IsValid, new-IsValid, key_lang-lang_key}
use rules_proto.Resolver.Provide.{provide-IsValid, resolve-provide, add_label}
use rules_proto.Resolver.Csv.{Entry, saved_entries, render, render_lines, save, load}
use rules_proto.Resolver.Csv.Lines.{IsColumn, IsWritable, provide_entries, load-render_lines}
use rules_proto.Resolver.Csv.RoundTrip.{exported, load-save}
use rules_proto.Resolver.Install.{OverrideSpec, install, overridden, install_lem}

abbrev p : Text
p = bytes "p"

p-Lacks : Lacks 32 p
p-Lacks = (refl, tt)

-- `lib` provides one file.
abbrev provided : Resolver
provided = provide new p p (bytes "a") lib

provided-IsValid : IsValid provided
provided-IsValid = provide-IsValid new p p (bytes "a") lib new-IsValid p-Lacks

key_lang-lang_key_example : key_lang (lang_key p (bytes "M x")) ≡ some (p, bytes "M x")
key_lang-lang_key_example = key_lang-lang_key p (bytes "M x") p-Lacks

provide-IsValid_example : IsValid (provide provided p p (bytes "a") (new_label [] p p))
provide-IsValid_example =
    provide-IsValid provided p p (bytes "a") (new_label [] p p) provided-IsValid p-Lacks

resolve-provide_example :
    resolve (provide provided p p (bytes "a") (new_label [] p p)) p p (bytes "a") ≡ (
      if ((p == p) && (p == p)) && (bytes "a" == bytes "a")
      then add_label (new_label [] p p) (resolve provided p p (bytes "a"))
      else resolve provided p p (bytes "a"))
resolve-provide_example =
    resolve-provide provided p p (bytes "a") (new_label [] p p) p p (bytes "a") provided-IsValid
      p-Lacks p-Lacks

abbrev entry : Entry
entry = record { lang = p; imp_lang = p; imp = bytes "a"; location = lib }

p-IsColumn : IsColumn p
p-IsColumn = record { commaless = (refl, tt); unbroken = (refl, tt) }

entry-IsWritable : IsWritable ext entry
unfolding has_prefix text_beq render
entry-IsWritable = record {
  lang = p-IsColumn;
  not_comment = refl;
  imp_lang = p-IsColumn;
  imp = record { commaless = (refl, tt); unbroken = (refl, tt) };
  label_unbroken = (refl, (refl, (refl, tt)));
  label_no_return = (refl, (refl, (refl, tt)));
  label_parses = refl;
  short = refl;
}

load-render_lines_example :
    load ext new (render_lines ext (entry ∷ entry ∷ []))
    ≡ (provide_entries ext new (entry ∷ entry ∷ []), none)
load-render_lines_example =
    load-render_lines ext new (entry ∷ entry ∷ []) (entry-IsWritable, (entry-IsWritable, tt))

provided-IsWritable : All (IsWritable ext) (or_zero [] (saved_entries provided []))
unfolding saved_entries provide lang_key key_lang lookup insert keys sort_strings text_beq contains
provided-IsWritable = (entry-IsWritable, tt)

load-save_example :
    (text : Text) × (save ext provided [] ≡ some text)
    × ((load ext new text).1 ≡ none)
    × (contains (resolve (load ext new text).0 p p (bytes "a")) lib
        ≡ contains (exported [] (resolve provided p p (bytes "a"))) lib)
load-save_example =
    load-save ext provided [] provided-IsValid provided-IsWritable p p (bytes "a") lib p-Lacks

abbrev overrides : List OverrideSpec
overrides = record { imp_lang = p; imp = bytes "a"; lang = p; dep = new_label [] p p } ∷ []

install_lem_example :
    (specs : List OverrideSpec) × (install provided overrides ≡ some (specs ++ overrides))
    × (overridden p p (bytes "a") lib specs ≡ contains (resolve provided p p (bytes "a")) lib)
install_lem_example = install_lem provided overrides p p (bytes "a") lib provided-IsValid p-Lacks
