-- ===== src/Tests/Generation.antt =====
-- The theorem on the rules of a package at a concrete input.
use rules_proto.Base.{Text, bytes, List, [], ◌∷◌, ◌≡◌, some, text_eq, true, Distinct}
use rules_proto.Base.Dict.{lookup}
use rules_proto.External.{new_label, label_eq}
use rules_proto.Resolver.{Resolver, new}
use rules_proto.Generation.{RuleProvider, ProvidedRules, get_provided_rules}
use rules_proto.Generation.Names.{names, place, get_provided_rules_lem}
use mathlib.Core.Option.{none}

-- A provider of a rule with the name.
abbrev provider : Text → RuleProvider
provider name = record {
  rule = λ rules. some (record { kind = bytes "k"; name = name; library = none; imports = none });
  provided = λ r. (bytes "k", name) ∷ [];
  library = record { name = name; imports = bytes "i" ∷ [] };
}

abbrev providers : List RuleProvider
providers = provider (bytes "a") ∷ provider (bytes "b") ∷ provider (bytes "a") ∷ []

get_provided_rules_lem_example :
    (s : ProvidedRules) × (resolver' : Resolver) × (get_provided_rules
        (bytes "pkg")
        []
        new
        providers
        true
      ≡ some (s, resolver'))
    × Distinct (names s.rules)
    × (lookup (new_label [] (bytes "pkg") (bytes "b")) s.indexes
        ≡ place (bytes "b") (names s.rules))
get_provided_rules_lem_example =
    get_provided_rules_lem (bytes "pkg") [] new providers true (bytes "b")
