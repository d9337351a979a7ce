-- ===== src/Config/Language/Laws.antt =====
-- The language configuration keeps its name and proper maps, and a clone is a full copy.
use rules_proto.Base.{Text, List, [], ◌≡◌, refl, Distinct, text_eq, arith}
use rules_proto.Base.Dict.{keys, Distinct-keys-insert, copy_into-nil}
use rules_proto.Intent.{parse_intent}
use rules_proto.Config.Signs.{want_all-Distinct}
use rules_proto.Config.Language.{LanguageConfig, YLanguage, new, clone, parse_directive, from_yaml}

-- No map holds a key twice.
pub record IsValid (c : LanguageConfig) : Type 0 where
  pub plugins : Distinct (keys c.plugins)
  pub rules : Distinct (keys c.rules)

pub new-IsValid : (name : Text) (rules : List Text) → IsValid (new name rules)
unfolding new keys
new-IsValid name rules = record { plugins = tt; rules = want_all-Distinct rules [] tt }

pub name-new : (name : Text) (rules : List Text) → (new name rules).name ≡ name
unfolding new
name-new name rules = refl

-- Every field is copied.
pub clone-eq : (c : LanguageConfig) → IsValid c → clone c ≡ c
unfolding clone
clone-eq c v = rw (copy_into-nil c.plugins v.plugins, copy_into-nil c.rules v.rules)

pub name-parse_directive :
    (c : LanguageConfig) (param value : Text) → (parse_directive c param value).0.name ≡ c.name
unfolding parse_directive
name-parse_directive c param value = ground arith

pub parse_directive-IsValid :
    (c : LanguageConfig) (param value : Text)
    → IsValid c
    → IsValid (parse_directive c param value).0
unfolding parse_directive
parse_directive-IsValid c param value v =
    let want = (parse_intent param).want in
    ground (
      arith,
      Distinct-keys-insert value want c.plugins v.plugins,
      Distinct-keys-insert value want c.rules v.rules,
    )

pub name-from_yaml : (c : LanguageConfig) (y : YLanguage) → (from_yaml c y).0.name ≡ c.name
unfolding from_yaml
name-from_yaml c y = ground arith

pub from_yaml-IsValid : (c : LanguageConfig) (y : YLanguage) → IsValid c → IsValid (from_yaml c y).0
unfolding from_yaml
from_yaml-IsValid c y v = ground (
  arith,
  want_all-Distinct y.plugin c.plugins v.plugins,
  want_all-Distinct y.rule c.rules v.rules,
)
