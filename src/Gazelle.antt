-- ===== src/Gazelle.antt =====
-- What the program uses of the rules of bazel-gazelle (github.com/bazelbuild/bazel-gazelle/rule):
-- a kind, a name, attributes by name, of which the last value that was set is read, and the private
-- attribute that holds the imports.
use rules_proto.Base.{Text, Bool, List, [], ◌∷◌, Option, none, some, text_eq, ◌≡◌, ◌==◌}
use rules_proto.Base.{false, ap}
use rules_proto.Base.Dict.{Dict, lookup, insert, lookup-insert, lookup-insert_self}

-- The values of attributes, and the expressions that the program builds for them.
pub data Value : Type 0 where
  text_value : Text → Value
  texts_value : List Text → Value
  bool_value : Bool → Value
  text_dict : List (Text × Text) → Value
  texts_dict : List (Text × List Text) → Value

pub record BuildRule : Type 0 where
  pub kind : Text
  pub name : Text
  pub attrs : Dict Text Value
  pub imports : Option (List Text)

-- `rule.NewRule`
abbrev pub new_rule : Text → Text → BuildRule
new_rule kind name = record { kind = kind; name = name; attrs = []; imports = none }

-- `SetAttr`
unfoldable pub set_attr : Text → Value → BuildRule → BuildRule
set_attr key v r = record r { attrs = insert key v r.attrs }

-- `SetAttr` of a list under `if len(values) > 0`
unfoldable pub set_nonempty : Text → List Text → BuildRule → BuildRule
unfolding set_attr
set_nonempty key [] r = r
set_nonempty key (v ∷ values) r = set_attr key (texts_value (v ∷ values)) r

abbrev pub text_of : Option Value → Text
text_of (some (text_value t)) = t
text_of _ = []

abbrev pub texts_of : Option Value → List Text
texts_of (some (texts_value ts)) = ts
texts_of _ = []

-- `AttrString`
unfoldable pub attr_string : Text → BuildRule → Text
attr_string key r = text_of (lookup key r.attrs)

-- `AttrStrings`; nil is the empty list.
unfoldable pub attr_strings : Text → BuildRule → List Text
attr_strings key r = texts_of (lookup key r.attrs)

pub attr_strings-set_attr :
    (key : Text) (ts : List Text) (r : BuildRule)
    → attr_strings key (set_attr key (texts_value ts) r) ≡ ts
unfolding attr_strings set_attr
attr_strings-set_attr key ts r = ap texts_of (lookup-insert_self key (texts_value ts) r.attrs)

pub attr_strings-set_other :
    (key other : Text) (v : Value) (r : BuildRule)
    → (other == key) ≡ false
    → attr_strings key (set_attr other v r) ≡ attr_strings key r
unfolding attr_strings set_attr
attr_strings-set_other key other v r h = rw (lookup-insert other key v r.attrs, h)

pub attr_string-set_other :
    (key other : Text) (v : Value) (r : BuildRule)
    → (other == key) ≡ false
    → attr_string key (set_attr other v r) ≡ attr_string key r
unfolding attr_string set_attr
attr_string-set_other key other v r h = rw (lookup-insert other key v r.attrs, h)
