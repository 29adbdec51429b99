-- ===== src/Users/Attribute.antt =====
-- What a name is split into, and which part of it names the user.
use Prim.Native.Char.{Char, code}
use Prim.Native.String
use text.Mathlib.TextLemmas
use text.Mathlib.TextEquality.{Char-path}
use openid_tls_connector.Common.{
  ℕ, String, ◌≡◌, refl, sym, ap, ◌∙◌, ◌≢◌, ◌↔◌, inl, inr, Bool, true, false, List, [], ◌∷◌, none,
  some, ok, arith, eqb, eqb_iff, list_eq, list_eq_sound, list_eq_refl, Bool-cases, Option-cases,
}
use openid_tls_connector.Common.Text.{join, trim, split_once}
use openid_tls_connector.Users.{
  User, UserManager, split_rdns, upper, find_attribute, extract_dn_attribute, resolve,
}
use openid_tls_connector.Users.Rounds.{comma}
use openid_tls_connector.Users.Split.{push, push-append, parts}
use openid_tls_connector.Users.Refine.{split_rdns_lem}

parts-cons :
    (escaped : Bool) (cur s : String)
    → (p : String) × (ps : List String) × (parts escaped cur s ≡ p ∷ ps)
unfolding parts
parts-cons escaped cur String.[] = (cur, [], refl)
parts-cons true cur (String.◌∷◌ c s) = parts-cons false (push cur c) s
parts-cons false cur (String.◌∷◌ c s) = elim (Bool-cases (eqb (code c) comma)) [
  | inl e ↦ (cur, parts false String.[] s, rw e)
  | inr e ↦ rw e (parts-cons _ (push cur c) s)
]

join-cons :
    (cur : String) (escaped : Bool) (p s : String)
    → join "," (cur ∷ parts escaped p s)
      ≡ String.◌++◌ cur (String.◌++◌ "," (join "," (parts escaped p s)))
unfolding join
join-cons cur escaped p s = let (q, qs, e) = parts-cons escaped p s in rw e refl

abbrev comma_char : Char
comma_char = ","

comma-append : (c : Char) (s : String) → code c ≡ comma → String.◌++◌ "," s ≡ String.◌∷◌ c s
comma-append c s e =
    TextLemmas.cons-append comma_char String.[] s
    ∙ ap (String.◌∷◌ comma_char) (TextLemmas.nil-append s)
    ∙ ap (λ (d : Char). String.◌∷◌ d s) (Char-path comma_char c (sym e))

join-parts : (escaped : Bool) (cur s : String) → join "," (parts escaped cur s) ≡ String.◌++◌ cur s
unfolding parts join
join-parts escaped cur String.[] = sym (TextLemmas.append-nil cur)
join-parts true cur (String.◌∷◌ c s) = join-parts false (push cur c) s ∙ push-append cur c s
join-parts false cur (String.◌∷◌ c s) = elim (Bool-cases (eqb (code c) comma)) [
  | inl e ↦ rw e (
      join-cons cur false String.[] s
      ∙ ap (String.◌++◌ cur) (
          ap (String.◌++◌ ",") (join-parts false String.[] s ∙ TextLemmas.nil-append s)
          ∙ comma-append c s ((eqb_iff (code c) comma).0 e)))
  | inr e ↦ rw e (join-parts _ (push cur c) s ∙ push-append cur c s)
]

-- Nothing of a name is lost: its parts, joined by commas, are the name.
pub join-split_rdns :
    (dn : String) → (ps : List String) × (split_rdns dn ≡ some ps) × (join "," ps ≡ dn)
join-split_rdns dn = (
  parts false String.[] dn,
  split_rdns_lem dn,
  join-parts false String.[] dn ∙ TextLemmas.nil-append dn,
)

module _ (table : ℕ → List ℕ) where
  -- The parts up to the first that is for the attribute are well formed, and that one gives the value;
  -- attributes are compared in upper case.
  pub data Gives (attribute : String) : List String → String → Type 0 where
    here :
        {rdns : List String} (rdn key value v : String)
        → split_once b'=' (trim rdn) ≡ some (key, value)
        → upper table (trim key) ≡ upper table attribute
        → v ≡ trim value
        → Gives attribute (rdn ∷ rdns) v
    there :
        {rdns : List String} {v : String} (rdn key value : String)
        → split_once b'=' (trim rdn) ≡ some (key, value)
        → upper table (trim key) ≢ upper table attribute
        → Gives attribute rdns v
        → Gives attribute (rdn ∷ rdns) v

  same_upper :
      (k a : String)
      → (list_eq (upper table k) (upper table a) ≡ true) ↔ (upper table k ≡ upper table a)
  same_upper k a =
      (list_eq_sound (upper table k) (upper table a), λ e. rw e (list_eq_refl (upper table a)))

  find_attribute-Gives :
      (attribute : String) (rdns : List String) (v : String)
      → find_attribute table attribute rdns ≡ ok v
      → Gives attribute rdns v
  unfolding find_attribute
  find_attribute-Gives attribute [] v h = cc
  find_attribute-Gives attribute (rdn ∷ rdns) v h =
      elim (Option-cases (split_once b'=' (trim rdn))) [
        | inl e ↦ absurd (ground arith)
        | inr ((key, value), e) ↦
            elim (Bool-cases (list_eq (upper table (trim key)) (upper table attribute))) [
              | inl same ↦
                  here rdn key value v e ((same_upper (trim key) attribute).0 same) (ground arith)
              | inr other ↦
                  there rdn key value e
                    (λ q. cc (sym other ∙ (same_upper (trim key) attribute).1 q))
                    (find_attribute-Gives attribute rdns v (ground arith))
            ]
      ]

  Gives-find_attribute :
      {attribute : String} {rdns : List String} {v : String}
      → Gives attribute rdns v
      → find_attribute table attribute rdns ≡ ok v
  unfolding find_attribute
  Gives-find_attribute {attribute} (here rdn key value v e same r) =
      ground (arith, (same_upper (trim key) attribute).1 same)
  Gives-find_attribute {attribute} (there rdn key value e other g) =
      ground (arith, same_upper (trim key) attribute, Gives-find_attribute g)

  -- Resolving a header never panics; it gives a user exactly when the first part of the name that is
  -- for the configured attribute is reached over well-formed parts only, and then the user has the
  -- trimmed value of that part and the header as it came.
  pub resolve_iff :
      (m : UserManager) (header : String) (u : User)
      → (resolve table m header ≢ none)
        × ((resolve table m header ≡ some (ok u))
            ↔ (Gives m.dn_attribute (parts false String.[] header) u.subject × (u.raw_dn ≡ header)))
  unfolding resolve extract_dn_attribute
  resolve_iff m header u = (
    λ h. ground (arith, split_rdns_lem header),
    (
      λ h. (
        find_attribute-Gives m.dn_attribute (parts false String.[] header) u.subject
            (ground (arith, split_rdns_lem header)),
        ground (arith, split_rdns_lem header),
      ),
      λ (g, raw). ground (arith, split_rdns_lem header, Gives-find_attribute g),
    ),
  )
