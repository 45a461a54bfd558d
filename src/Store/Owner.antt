-- ===== src/Store/Owner.antt =====
-- cagent/src/cagent_api/store.py: `Identity`, its key of ownership, and its form in the evidence.
use Prim.Native.Char.{code}
use Prim.Native.String
use text.Mathlib.TextLemmas.{append_cancel_left, cons-append}
use pj_clusterintent.Prelude.{
  ℕ, String, ◌≡◌, ◌↔◌, ◌≢◌, ◌⊎◌, inl, inr, Bool-cases, ap, Option, none, some, [], ◌∷◌, arith,
  str_eq, eq_iff, if◌then◌else◌,
}
use pj_clusterintent.Prelude.Dict
use pj_clusterintent.Prelude.Dict.{Dict}

pub record Identity : Type 0 where
  pub identity_class : String
  pub uuid : Option String
  pub cert_serial : Option String
  pub name : Option String

unfoldable pub as_dict : Identity → Dict (Option String)
as_dict i =
    if str_eq i.identity_class "node"
    then ("class", some "node") ∷ ("uuid", i.uuid) ∷ ("cert_serial", i.cert_serial) ∷ []
    else ("class", some i.identity_class) ∷ ("name", i.name) ∷ []

-- A missing value is printed as Python prints `None`.
abbrev pub shown : Option String → String
shown none = "None"
shown (some s) = s

unfoldable pub owner_key : Identity → String
owner_key i =
    if str_eq i.identity_class "node" then String.◌++◌ "node:" (shown i.uuid) else i.identity_class

-- `d.get(key)`: a missing key and a null read alike.
abbrev pub field : String → Dict (Option String) → Option String
field k d = elim (Dict.get k d) [ none ↦ none | some v ↦ v ]

-- `d.get("class", "node")`; a null class is no class of the program and reads as "None".
abbrev pub class_of : Dict (Option String) → String
class_of d = elim (Dict.get "class" d) [ none ↦ "node" | some v ↦ shown v ]

unfoldable pub identity_from_record : Dict (Option String) → Identity
identity_from_record d =
    if str_eq (class_of d) "node"
    then record {
      identity_class = "node";
      uuid = field "uuid" d;
      cert_serial = field "cert_serial" d;
      name = none;
    }
    else record {
      identity_class = class_of d;
      uuid = none;
      cert_serial = none;
      name = field "name" d;
    }

-- What the authenticators make: a node has no name, any other class has nothing but a name.
abbrev pub IsCanonical : Identity → Type 0
IsCanonical i =
    if str_eq i.identity_class "node"
    then i.name ≡ none
    else (i.uuid ≡ none) × (i.cert_serial ≡ none)

-- An identity is read back from the evidence as it was written.
pub identity_from_record-as_dict :
    (i : Identity) → IsCanonical i → identity_from_record (as_dict i) ≡ i
unfolding identity_from_record as_dict Dict.get
identity_from_record-as_dict i h = elim (Bool-cases (str_eq i.identity_class "node")) [
  | inl e ↦ ground (arith, eq_iff i.identity_class "node", rw e at h)
  | inr e ↦ ground (arith, eq_iff i.identity_class "node", rw e at h)
]

-- The classes that the three authenticators give out.
abbrev pub IsKnownClass : Identity → Type 0
IsKnownClass i =
    (i.identity_class ≡ "node") ⊎ ((i.identity_class ≡ "human") ⊎ (i.identity_class ≡ "window"))

owner_key_node :
    (i : Identity) → i.identity_class ≡ "node" → owner_key i ≡ String.◌++◌ "node:" (shown i.uuid)
unfolding owner_key
owner_key_node i h = ground (arith, eq_iff i.identity_class "node")

owner_key_other : (i : Identity) → i.identity_class ≢ "node" → owner_key i ≡ i.identity_class
unfolding owner_key
owner_key_other i h = ground (arith, eq_iff i.identity_class "node")

abbrev first_code : String → ℕ
first_code String.[] = 0
first_code (String.◌∷◌ c s) = code c

node_key_code : (s : String) → first_code (String.◌++◌ "node:" s) ≡ 110
node_key_code s = ap first_code (cons-append "n" "ode:" s)

node_key-ne : (s : String) → (String.◌++◌ "node:" s ≢ "human") × (String.◌++◌ "node:" s ≢ "window")
node_key-ne s = (
  λ p. omega (arith, node_key_code s, ap first_code p),
  λ p. omega (arith, node_key_code s, ap first_code p),
)

clash : (s c : String) → (c ≡ "human") ⊎ (c ≡ "window") → String.◌++◌ "node:" s ≡ c → ⊥
clash s c (inl e) p = (node_key-ne s).0 (cc)
clash s c (inr e) p = (node_key-ne s).1 (cc)

known_key :
    (i : Identity)
    → IsKnownClass i
    → ((i.identity_class ≡ "node") × (owner_key i ≡ String.◌++◌ "node:" (shown i.uuid)))
      ⊎ ((i.identity_class ≢ "node")
          × (owner_key i ≡ i.identity_class)
          × ((i.identity_class ≡ "human") ⊎ (i.identity_class ≡ "window")))
known_key i (inl e) = inl (e, owner_key_node i e)
known_key i (inr k) =
    let n : i.identity_class ≢ "node" =
      ground (arith, eq_iff "human" "node", eq_iff "window" "node") in
    inr (n, owner_key_other i n, k)

-- Two identities of known classes own the same things exactly when their classes agree and, for
-- nodes, the node is the same.
owner_key-eq_iff :
    (a b : Identity)
    → IsKnownClass a
    → IsKnownClass b
    → (owner_key a ≡ owner_key b) ↔ (
        (a.identity_class ≡ b.identity_class)
        × (a.identity_class ≡ "node" → shown a.uuid ≡ shown b.uuid))
owner_key-eq_iff a b h k = elim (known_key a h) [
  | inl (an, ka) ↦ elim (known_key b k) [
    | inl (bn, kb) ↦
        (λ e. (cc, λ _. append_cancel_left "node:" _ _ (cc)), λ (_, e). rw (ka, kb, e an))
    | inr (bn, kb, bk) ↦
        (λ e. absurd (clash (shown a.uuid) b.identity_class bk (cc)), λ (e, _). absurd (bn (cc)))
  ]
  | inr (an, ka, ak) ↦ elim (known_key b k) [
    | inl (bn, kb) ↦
        (λ e. absurd (clash (shown b.uuid) a.identity_class ak (cc)), λ (e, _). absurd (an (cc)))
    | inr (bn, kb, bk) ↦ (λ e. (cc, λ n. absurd (an n)), λ (e, _). cc)
  ]
]
