-- ===== src/Generation.antt =====
-- pkg/protoc/package.go: the rules that the providers of a package give (`getProvidedRules`), and
-- the imports they provide (`provideResolverImportSpecs`). A provider that returns an earlier rule
-- with changes returns it here as a new value, and it changes no other rule.
pub mod Names
pub mod Choice
pub mod Ready
pub mod Total
pub mod Chosen
use rules_proto.Base.{
  ℕ, zero, suc, Text, bytes, Bool, List, [], ◌∷◌, ◌++◌, Option, none, some, text_eq,
}
use rules_proto.Base.{length, if◌then◌else◌}
use rules_proto.Base.Dict.{Dict, lookup, insert, or_zero}
use rules_proto.External.{Label, new_label, label_eq}
use rules_proto.Resolver.{Resolver, provide}

-- What the loop reads of a proto library.
pub record Library : Type 0 where
  pub name : Text
  pub imports : List Text

-- A rule of gazelle, with the private attributes that the loop sets: the library and the imports.
pub record GenRule : Type 0 where
  pub kind : Text
  pub name : Text
  pub library : Option Library
  pub imports : Option (List Text)

-- `RuleProvider`, with the library it was built on: the rule, from the rules before it, and the
-- specifications that a rule provides, as pairs of a language and an import.
pub record RuleProvider : Type 0 where
  pub rule : List GenRule → Option GenRule
  pub provided : GenRule → List (Text × Text)
  pub library : Library

pub record ProvidedRules : Type 0 where
  pub rules : List GenRule
  pub indexes : Dict Label ℕ
  pub providers : Dict Text RuleProvider

-- `rules[index] = r`; an index out of range leaves the list, where Go panics.
pub set_at {ℓ} : {A : Type ℓ} → ℕ → A → List A → List A
set_at i a [] = []
set_at zero a (x ∷ xs) = a ∷ xs
set_at (suc i) a (x ∷ xs) = x ∷ set_at i a xs

-- The private attributes, when the rule is to be resolved.
attach : Bool → RuleProvider → GenRule → GenRule
attach should_resolve p r =
    if should_resolve
    then record r {
      library = some p.library;
      imports = some (p.library.imports ++ or_zero [] r.imports);
    }
    else r

-- `s.providers` keeps the provider of the first rule of a name.
put_rule : Text → RuleProvider → GenRule → ProvidedRules → ProvidedRules
put_rule rel p r s =
    let from = new_label [] rel r.name in
    elim (lookup from s.indexes) [
      | some index ↦ record s { rules = set_at index r s.rules }
      | none ↦ record {
        rules = s.rules ++ r ∷ [];
        indexes = insert from (length s.rules) s.indexes;
        providers = insert r.name p s.providers;
      }
    ]

-- The first loop of `getProvidedRules`
pub provide_rules : Text → Bool → ProvidedRules → List RuleProvider → ProvidedRules
unfolding put_rule attach
provide_rules rel should_resolve s [] = s
provide_rules rel should_resolve s (p ∷ providers) = elim (p.rule s.rules) [
  | none ↦ provide_rules rel should_resolve s providers
  | some r ↦
      provide_rules rel should_resolve (put_rule rel p (attach should_resolve p r) s) providers
]

-- `provideResolverImportSpecs`, over the specifications of a rule
provide_specs : Resolver → Label → List (Text × Text) → Resolver
provide_specs resolver from [] = resolver
provide_specs resolver from ((lang, imp) ∷ specs) =
    provide_specs (provide resolver (bytes "protobuf") lang imp from) from specs

-- The second loop of `getProvidedRules`; `none` is the call on a nil provider.
provide_all : Text → Dict Text RuleProvider → Resolver → List GenRule → Option Resolver
unfolding provide_specs
provide_all rel providers resolver [] = some resolver
provide_all rel providers resolver (r ∷ rules) = elim (lookup r.name providers) [
  | none ↦ none
  | some p ↦
      provide_all rel providers (provide_specs resolver (new_label [] rel r.name) (p.provided r))
        rules
]

-- `getProvidedRules`, with the resolver that it writes to and the providers of the package
unfoldable pub get_provided_rules :
    Text
    → Dict Text RuleProvider
    → Resolver
    → List RuleProvider
    → Bool
    → Option (ProvidedRules × Resolver)
unfolding provide_rules provide_all
get_provided_rules rel known resolver providers should_resolve =
    let s =
      provide_rules rel should_resolve (record { rules = []; indexes = []; providers = known })
        providers in
    if should_resolve
    then elim (provide_all rel s.providers resolver s.rules) [
      | none ↦ none
      | some resolver' ↦ some (s, resolver')
    ]
    else some (s, resolver)

-- The method `RuleProvider`; `none` is nil.
unfoldable pub rule_provider : Dict Text RuleProvider → GenRule → Option RuleProvider
rule_provider providers r = lookup r.name providers

-- The loop of `Empty`: of the rules to delete, the kinds and the names.
unfoldable pub empty_rules : List GenRule → List GenRule
empty_rules [] = []
empty_rules (r ∷ rules) =
    record { kind = r.kind; name = r.name; library = none; imports = none } ∷ empty_rules rules
