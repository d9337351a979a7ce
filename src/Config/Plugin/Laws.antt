-- ===== src/Config/Plugin/Laws.antt =====
-- The plugin configuration keeps its name and proper maps, and a clone is a full copy.
use rules_proto.Base.{Text, ◌≡◌, refl, Distinct, text_eq, arith}
use rules_proto.Base.Dict.{keys, Distinct-keys-insert, copy_into-nil}
use rules_proto.External.{External}
use rules_proto.Intent.{parse_intent}
use rules_proto.Config.Signs.{want_all-Distinct}
use rules_proto.Config.Plugin.{
  LanguagePluginConfig, YPlugin, new, clone, parse_directive, from_yaml,
}

-- No map holds a key twice.
pub record IsValid (c : LanguagePluginConfig) : Type 0 where
  pub options : Distinct (keys c.options)
  pub flags : Distinct (keys c.flags)
  pub deps : Distinct (keys c.deps)

pub new-IsValid : (name : Text) → IsValid (new name)
unfolding new keys
new-IsValid name = record { options = tt; flags = tt; deps = tt }

pub name-new : (name : Text) → (new name).name ≡ name
unfolding new
name-new name = refl

-- Every field is copied.
pub clone-eq : (c : LanguagePluginConfig) → IsValid c → clone c ≡ c
unfolding clone
clone-eq c v =
    rw (
      copy_into-nil c.options v.options,
      copy_into-nil c.flags v.flags,
      copy_into-nil c.deps v.deps,
    )

module _ (ext : External) where
  pub name-parse_directive :
      (c : LanguagePluginConfig) (param value : Text)
      → (parse_directive ext c param value).0.name ≡ c.name
  unfolding parse_directive
  name-parse_directive c param value = ground arith

  pub parse_directive-IsValid :
      (c : LanguagePluginConfig) (param value : Text)
      → IsValid c
      → IsValid (parse_directive ext c param value).0
  unfolding parse_directive
  parse_directive-IsValid c param value v =
      let want = (parse_intent param).want in
      ground (
        arith,
        Distinct-keys-insert value want c.options v.options,
        Distinct-keys-insert value want c.flags v.flags,
        Distinct-keys-insert value want c.deps v.deps,
      )

  pub name-from_yaml :
      (c : LanguagePluginConfig) (y : YPlugin) → (from_yaml ext c y).0.name ≡ c.name
  unfolding from_yaml
  name-from_yaml c y = ground arith

  pub from_yaml-IsValid :
      (c : LanguagePluginConfig) (y : YPlugin) → IsValid c → IsValid (from_yaml ext c y).0
  unfolding from_yaml
  from_yaml-IsValid c y v = ground (
    arith,
    want_all-Distinct y.flag c.flags v.flags,
    want_all-Distinct y.option c.options v.options,
    want_all-Distinct y.dep c.deps v.deps,
  )
