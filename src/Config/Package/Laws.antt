-- ===== src/Config/Package/Laws.antt =====
-- The invariant of a package configuration, through its entries.
use rules_proto.Base.{Text, [], ◌≡◌, Distinct, text_eq}
use rules_proto.Base.{inl, inr, Option-cases}
use rules_proto.Base.Dict.{Dict, keys, lookup, Distinct-keys-insert}
use rules_proto.Base.Dict.{Entries, Entries-insert, Entries-lookup}
use rules_proto.Config.Errors.{Outcome}
use rules_proto.Config.Plugin
use rules_proto.Config.Plugin.{LanguagePluginConfig}
use rules_proto.Config.Rule
use rules_proto.Config.Rule.{Config, LanguageRuleConfig}
use rules_proto.Config.Language
use rules_proto.Config.Language.{LanguageConfig}
use rules_proto.Config.Package.{
  PackageConfig, new, or_new, get_or_create_plugin, get_or_create_rule, get_or_create_lang,
  put_plugin, put_rule, put_lang,
}

-- An entry carries the name under which it is kept, and is valid itself.
pub record PluginEntry (k : Text) (p : LanguagePluginConfig) : Type 0 where
  pub named : p.name ≡ k
  pub valid : Plugin.Laws.IsValid p

pub record RuleEntry (k : Text) (r : LanguageRuleConfig) : Type 0 where
  pub named : r.name ≡ k
  pub valid : Rule.Laws.IsValid r

pub record LangEntry (k : Text) (l : LanguageConfig) : Type 0 where
  pub named : l.name ≡ k
  pub valid : Language.Laws.IsValid l

pub record IsValid (c : PackageConfig) : Type 0 where
  pub langs_distinct : Distinct (keys c.langs)
  pub plugins_distinct : Distinct (keys c.plugins)
  pub rules_distinct : Distinct (keys c.rules)
  pub langs : Entries LangEntry c.langs
  pub plugins : Entries PluginEntry c.plugins
  pub rules : Entries RuleEntry c.rules

pub new-IsValid : (config : Config) → IsValid (new config)
unfolding new keys
new-IsValid config = record {
  langs_distinct = tt;
  plugins_distinct = tt;
  rules_distinct = tt;
  langs = tt;
  plugins = tt;
  rules = tt;
}

-- What is found in a valid map, or made for it, fits its key.
or_new-fits {ℓ κ} :
    {V : Type ℓ} (P : Text → V → Type κ) (k : Text) (v : V) (d : Dict Text V)
    → Entries P d
    → P k v
    → P k (or_new (lookup k d) v)
or_new-fits P k v d h p = elim (Option-cases (lookup k d)) [
  | inl absent ↦ rw absent p
  | inr (w, present) ↦ rw present (Entries-lookup P k w d h present)
]

pub get_or_create_plugin-fits :
    (c : PackageConfig) (k : Text) → IsValid c → PluginEntry k (get_or_create_plugin c k)
unfolding get_or_create_plugin
get_or_create_plugin-fits c k v =
    or_new-fits PluginEntry k _ c.plugins v.plugins
      (record { named = Plugin.Laws.name-new k; valid = Plugin.Laws.new-IsValid k })

pub get_or_create_rule-fits :
    (c : PackageConfig) (k : Text) → IsValid c → RuleEntry k (get_or_create_rule c k)
unfolding get_or_create_rule
get_or_create_rule-fits c k v =
    let valid = Rule.Laws.new-IsValid c.config k in
    or_new-fits RuleEntry k _ c.rules v.rules (record {
      named = Rule.Laws.name-new c.config k;
      valid = record {
        deps = valid.deps;
        attrs = valid.attrs;
        vals = valid.vals;
        options = valid.options;
        visibility = valid.visibility;
      };
    })

pub get_or_create_lang-fits :
    (c : PackageConfig) (k : Text) → IsValid c → LangEntry k (get_or_create_lang c k)
unfolding get_or_create_lang
get_or_create_lang-fits c k v =
    or_new-fits LangEntry k _ c.langs v.langs
      (record { named = Language.Laws.name-new k []; valid = Language.Laws.new-IsValid k [] })

pub put_plugin-IsValid :
    (c : PackageConfig) (k : Text) (o : Outcome LanguagePluginConfig)
    → IsValid c
    → PluginEntry k o.0
    → IsValid (put_plugin c k o).0
unfolding put_plugin
put_plugin-IsValid c k (p, e) v fits = record {
  langs_distinct = v.langs_distinct;
  plugins_distinct = Distinct-keys-insert k p c.plugins v.plugins_distinct;
  rules_distinct = v.rules_distinct;
  langs = v.langs;
  plugins = Entries-insert PluginEntry k p c.plugins fits v.plugins;
  rules = v.rules;
}

pub put_rule-IsValid :
    (c : PackageConfig) (k : Text) (o : Outcome LanguageRuleConfig)
    → IsValid c
    → RuleEntry k o.0
    → IsValid (put_rule c k o).0
unfolding put_rule
put_rule-IsValid c k (r, e) v fits = record {
  langs_distinct = v.langs_distinct;
  plugins_distinct = v.plugins_distinct;
  rules_distinct = Distinct-keys-insert k r c.rules v.rules_distinct;
  langs = v.langs;
  plugins = v.plugins;
  rules = Entries-insert RuleEntry k r c.rules fits v.rules;
}

pub put_lang-IsValid :
    (c : PackageConfig) (k : Text) (o : Outcome LanguageConfig)
    → IsValid c
    → LangEntry k o.0
    → IsValid (put_lang c k o).0
unfolding put_lang
put_lang-IsValid c k (l, e) v fits = record {
  langs_distinct = Distinct-keys-insert k l c.langs v.langs_distinct;
  plugins_distinct = v.plugins_distinct;
  rules_distinct = v.rules_distinct;
  langs = Entries-insert LangEntry k l c.langs fits v.langs;
  plugins = v.plugins;
  rules = v.rules;
}
