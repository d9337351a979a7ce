-- ===== src/Config/Package/Yaml.antt =====
-- What a YAML configuration does to a package configuration.
use rules_proto.Base.{List, [], ◌∷◌, ◌≡◌, ◌∙◌, text_eq, arith, none, some}
use rules_proto.Base.{inl, inr, Option-cases, Bool-cases, is_empty, eq_iff}
use rules_proto.External.{External}
use rules_proto.Config.Errors.{Outcome, IsMatched}
use rules_proto.Config.Plugin
use rules_proto.Config.Plugin.{YPlugin, LanguagePluginConfig}
use rules_proto.Config.Rule
use rules_proto.Config.Rule.{YRule, LanguageRuleConfig}
use rules_proto.Config.Language
use rules_proto.Config.Language.{YLanguage, LanguageConfig}
use rules_proto.Config.Package.{
  PackageConfig, YConfig, get_or_create_plugin, get_or_create_rule, get_or_create_lang,
  load_yplugin, load_yrule, load_ylanguage, each, and_then, load_yconfig,
}
use rules_proto.Config.Package.Laws.{
  IsValid, get_or_create_plugin-fits, get_or_create_rule-fits, get_or_create_lang-fits,
  put_plugin-IsValid, put_rule-IsValid, put_lang-IsValid,
}

-- What a loading step promises: a valid configuration, and no mismatch.
pub record Loads (o : Outcome PackageConfig) : Type 0 where
  pub valid : IsValid o.0
  pub matched : IsMatched o.1

each-Loads {ℓ} :
    {Y : Type ℓ} (f : PackageConfig → Y → Outcome PackageConfig)
    → ((c : PackageConfig) (y : Y) → IsValid c → Loads (f c y))
    → (ys : List Y) (c : PackageConfig) → IsValid c
    → Loads (each f ys c)
unfolding each
each-Loads f step [] c v = record { valid = v; matched = tt }
each-Loads f step (y ∷ ys) c v = elim (Option-cases (f c y).1) [
  | inl fine ↦ rw (fine, each) (each-Loads f step ys (f c y).0 (step c y v).valid)
  | inr (e, failed) ↦
      rw (failed, each)
        (record { valid = (step c y v).valid; matched = rw failed at (step c y v).matched })
]

and_then-Loads :
    (o : Outcome PackageConfig) (k : PackageConfig → Outcome PackageConfig)
    → Loads o
    → ((c : PackageConfig) → IsValid c → Loads (k c))
    → Loads (and_then o k)
unfolding and_then
and_then-Loads (c, none) k h next = next c h.valid
and_then-Loads (c, some e) k h next = h

plugin-IsMatched :
    (ext : External) (c : LanguagePluginConfig) (y : YPlugin)
    → c.name ≡ y.name
    → IsMatched (Plugin.from_yaml ext c y).1
unfolding Plugin.from_yaml
plugin-IsMatched ext c y same = rw ((eq_iff c.name y.name).1 same) (ground arith)

language-IsMatched :
    (c : LanguageConfig) (y : YLanguage) → c.name ≡ y.name → IsMatched (Language.from_yaml c y).1
unfolding Language.from_yaml
language-IsMatched c y same = rw ((eq_iff c.name y.name).1 same) tt

load_yplugin-Loads :
    (ext : External) (c : PackageConfig) (y : YPlugin) → IsValid c → Loads (load_yplugin ext c y)
unfolding load_yplugin
load_yplugin-Loads ext c y v = elim (Bool-cases (is_empty y.name)) [
  | inl missing ↦ rw missing (record { valid = v; matched = tt })
  | inr given ↦
      let fits = get_or_create_plugin-fits c y.name v in
      rw given (record {
        valid =
            put_plugin-IsValid c y.name (Plugin.from_yaml ext (get_or_create_plugin c y.name) y) v
              (record {
                named = Plugin.Laws.name-from_yaml ext _ y ∙ fits.named;
                valid = Plugin.Laws.from_yaml-IsValid ext _ y fits.valid;
              });
        matched = plugin-IsMatched ext _ y fits.named;
      })
]

load_yrule-Loads :
    (ext : External) (c : PackageConfig) (y : YRule) → IsValid c → Loads (load_yrule ext c y)
unfolding load_yrule
load_yrule-Loads ext c y v = elim (Bool-cases (is_empty y.name)) [
  | inl missing ↦ rw missing (record { valid = v; matched = tt })
  | inr given ↦
      let fits = get_or_create_rule-fits c y.name v in
      rw given (record {
        valid =
            put_rule-IsValid c y.name (Rule.from_yaml ext (get_or_create_rule c y.name) y) v
              (record {
                named = Rule.Yaml.name-from_yaml ext _ y ∙ fits.named;
                valid = Rule.Yaml.from_yaml-IsValid ext _ y fits.valid;
              });
        matched = Rule.Yaml.from_yaml-IsMatched ext _ y fits.named;
      })
]

load_ylanguage-Loads : (c : PackageConfig) (y : YLanguage) → IsValid c → Loads (load_ylanguage c y)
unfolding load_ylanguage
load_ylanguage-Loads c y v = elim (Bool-cases (is_empty y.name)) [
  | inl missing ↦ rw missing (record { valid = v; matched = tt })
  | inr given ↦
      let fits = get_or_create_lang-fits c y.name v in
      rw given (record {
        valid =
            put_lang-IsValid c y.name (Language.from_yaml (get_or_create_lang c y.name) y) v
              (record {
                named = Language.Laws.name-from_yaml _ y ∙ fits.named;
                valid = Language.Laws.from_yaml-IsValid _ y fits.valid;
              });
        matched = language-IsMatched _ y fits.named;
      })
]

-- Loading a YAML configuration keeps the invariant, also where it fails, and never fails because
-- an entry's name differs from that of the configuration that it is loaded into.
pub load_yconfig-Loads :
    (ext : External) (c : PackageConfig) (y : YConfig) → IsValid c → Loads (load_yconfig ext c y)
unfolding load_yconfig
load_yconfig-Loads ext c y v =
    and_then-Loads _ _ (each-Loads (load_yplugin ext) (load_yplugin-Loads ext) y.plugin c v)
      λ c' v'.
        and_then-Loads _ _ (each-Loads (load_yrule ext) (load_yrule-Loads ext) y.rule c' v')
          (each-Loads load_ylanguage load_ylanguage-Loads y.language)
