-- ===== src/Config/Package/Effects.antt =====
-- The effect of a plugin directive, from its text to what the plugin's options are.
use rules_proto.Base.{Text, [], ◌∷◌, ◌≡◌, refl, ◌∙◌, sym, eq_iff, text_eq, text_beq, arith}
use rules_proto.Base.{
  inl, inr, Bool-cases, if◌then◌else◌, ap, some, none, bytes, ◌==◌, Bool, true, false, contains,
  Distinct,
}
use rules_proto.Base.Dict.{
  keys, lookup, Distinct-keys-insert, insert, lookup-insert, lookup-insert_self,
}
use rules_proto.Go.Strings.{join, fields-join, IsField, is_space, trim_space, has_prefix}
use rules_proto.External.{External}
use rules_proto.Intent.{parse_intent}
use rules_proto.Intent.Selection.{contains-for_intent}
use rules_proto.Config.Errors.{Directive}
use rules_proto.Config.Plugin
use rules_proto.Config.Plugin.{LanguagePluginConfig}
use rules_proto.Config.Package.{PackageConfig, get_or_create_plugin, parse_one}
use rules_proto.Config.Package.Laws.{IsValid, get_or_create_plugin-fits}

-- `option` and `-option`
abbrev pub option_param : Bool → Text
option_param true = bytes "option"
option_param false = bytes "-option"

-- `gazelle:proto_plugin NAME option VALUE`
abbrev pub option_directive : Text → Bool → Text → Directive
option_directive name want value = record {
  key = bytes "proto_plugin";
  value = join (name ∷ option_param want ∷ value ∷ []) (bytes " ");
}

parse_intent-option_param :
    (want : Bool)
    → parse_intent (option_param want) ≡ record { value = bytes "option"; want = want }
unfolding parse_intent trim_space has_prefix
parse_intent-option_param true = refl
parse_intent-option_param false = refl

option_param-IsField : (want : Bool) → IsField (option_param want)
unfolding is_space
option_param-IsField true = (refl, (refl, (refl, (refl, (refl, (refl, (refl, tt)))))))
option_param-IsField false = (refl, (refl, (refl, (refl, (refl, (refl, (refl, (refl, tt))))))))

get_or_create_plugin-insert :
    (c : PackageConfig) (name : Text) (p : LanguagePluginConfig)
    → get_or_create_plugin (record c { plugins = insert name p c.plugins }) name ≡ p
unfolding get_or_create_plugin
get_or_create_plugin-insert c name p = rw (lookup-insert_self name p c.plugins)

module _ (p : LanguagePluginConfig) (value : Text) where
  abbrev with_option : Bool → LanguagePluginConfig
  with_option want = record p { options = insert value want p.options }

  option_self :
      (want : Bool)
      → Distinct (keys p.options)
      → contains (Plugin.get_options (with_option want)) value ≡ want
  unfolding Plugin.get_options
  option_self want h =
      contains-for_intent _ true value (Distinct-keys-insert value want p.options h)
      ∙ rw (lookup-insert_self value want p.options) (ground arith)

  option_ne :
      (other : Text) (want : Bool)
      → Distinct (keys p.options)
      → (other == value) ≡ false
      → contains (Plugin.get_options (with_option want)) other
        ≡ contains (Plugin.get_options p) other
  unfolding Plugin.get_options
  option_ne other want h differs =
      contains-for_intent _ true other (Distinct-keys-insert value want p.options h)
      ∙ (rw (lookup-insert value other want p.options)
            (ground (arith, eq_iff value other, eq_iff other value))
          ∙ sym (contains-for_intent p.options true other h))

options_after :
    (p : LanguagePluginConfig) (value : Text) (want : Bool) (other : Text)
    → Distinct (keys p.options)
    → contains (Plugin.get_options (with_option p value want)) other
      ≡ (if other == value then want else contains (Plugin.get_options p) other)
options_after p value want other distinct = elim (Bool-cases (other == value)) [
  | inl same ↦ rw same (
      ap (contains (Plugin.get_options (with_option p value want))) ((eq_iff other value).0 same)
      ∙ option_self p value want distinct)
  | inr differs ↦ rw differs (option_ne p value other want distinct differs)
]

module _ (ext : External) where
  -- What an option directive of well-formed fields does: it writes one entry of one plugin.
  parse_one-option_directive :
      (c : PackageConfig) (name value : Text) (want : Bool)
      → IsField name
      → IsField value
      → parse_one ext c (option_directive name want value) ≡ (
        record c {
          plugins =
              insert name
                (record (get_or_create_plugin c name) {
                  options = insert value want (get_or_create_plugin c name).options;
                })
                c.plugins;
        },
        none,
      )
  unfolding parse_one Plugin.parse_directive text_beq
  parse_one-option_directive c name value want n v =
      rw
        (fields-join (name ∷ option_param want ∷ value ∷ [])
          (n, (option_param-IsField want, (v, tt))))
        (rw (parse_intent-option_param want) refl)

  -- A directive `proto_plugin NAME option VALUE`, or with `-option`, of well-formed fields on a valid
  -- configuration succeeds. Then VALUE is among the options of the plugin NAME exactly if the sign
  -- is positive; every other option of it stands as before, and so does every other field of
  -- the plugin, every other plugin, and the rest of the configuration.
  pub option_directive_effect :
      (c : PackageConfig) (name value : Text) (want : Bool) (other : Text)
      → IsValid c
      → IsField name
      → IsField value
      → let c' = (parse_one ext c (option_directive name want value)).0 in
        ((parse_one ext c (option_directive name want value)).1 ≡ none)
        × (contains (Plugin.get_options (get_or_create_plugin c' name)) other ≡ (
            if other == value
            then want
            else contains (Plugin.get_options (get_or_create_plugin c name)) other))
        × (lookup other c'.plugins ≡ (
            if name == other then some (get_or_create_plugin c' name) else lookup other c.plugins))
        × (get_or_create_plugin c' name ≡ record (get_or_create_plugin c name) {
          options = (get_or_create_plugin c' name).options;
        })
        × (c' ≡ record c { plugins = c'.plugins })
  option_directive_effect c name value want other v n f =
      let p = get_or_create_plugin c name in
      let distinct = (get_or_create_plugin-fits c name v).valid.options in
      rw (parse_one-option_directive c name value want n f) (
        refl,
        rw get_or_create_plugin-insert (options_after p value want other distinct),
        lookup-insert name other (with_option p value want) c.plugins
            ∙ ap (λ q. if name == other then some q else lookup other c.plugins)
                (sym (get_or_create_plugin-insert c name (with_option p value want))),
        rw get_or_create_plugin-insert refl,
        refl,
      )
