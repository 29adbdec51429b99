-- ===== src/Client/Registry.antt =====
-- What the registry of clients answers: unique identifiers, lookup, redirect URIs and secrets.
use mathlib.Core.List.{Memᴰ}
use openid_tls_connector.Common.{
  String, ◌≡◌, refl, ap, ◌∙◌, ◌↔◌, ◌≢◌, ◌⊎◌, inl, inr, true, false, List, [], ◌∷◌, Option, none,
  some, ok, arith, ◌==◌, eq_iff, eq_refl, any, find, All, Option-cases,
}
use openid_tls_connector.Common.Lists.Member.{any-eq-true, any_of_Memᴰ, find-eq-some}
use openid_tls_connector.Common.Text.{as_bytes}
use openid_tls_connector.Common.Text.Utf8.{as_bytes_inj}
use openid_tls_connector.Client.{
  allow, ClientConfig, ClientRegistry, check_ids, new, find_by_id, validate_redirect_uri,
  check_secret, validate_client_secret,
}
use openid_tls_connector.Client.Secret.{constant_time_eq_iff}

-- No two clients share an identifier.
abbrev pub DistinctIds : List ClientConfig → Type 0
DistinctIds [] = Unit
DistinctIds (c ∷ cs) = All (λ d. c.client_id ≢ d.client_id) cs × DistinctIds cs

abbrev IsFresh : List String → ClientConfig → Type 0
IsFresh seen c = any (λ i. i == c.client_id) seen ≡ false

All-IsFresh-cons :
    (seen : List String) (c : ClientConfig) (cs : List ClientConfig)
    → All (IsFresh (c.client_id ∷ seen)) cs
      ↔ (All (λ d. c.client_id ≢ d.client_id) cs × All (IsFresh seen) cs)
All-IsFresh-cons seen c [] = (λ _. (tt, tt), λ _. tt)
All-IsFresh-cons seen c (d ∷ cs) =
    let ih = All-IsFresh-cons seen c cs in
    (
      λ (h, hs). (
        (ground (arith, eq_iff c.client_id d.client_id), (ih.0 hs).0),
        (ground arith, (ih.0 hs).1),
      ),
      λ ((p, ps), (q, qs)). (ground (arith, eq_iff c.client_id d.client_id), ih.1 (ps, qs)),
    )

check_ids-eq-none_iff :
    (seen : List String) (cs : List ClientConfig)
    → (check_ids seen cs ≡ none) ↔ (All (IsFresh seen) cs × DistinctIds cs)
unfolding check_ids
check_ids-eq-none_iff seen [] = (λ _. (tt, tt), λ _. refl)
check_ids-eq-none_iff seen (c ∷ cs) =
    let ih = check_ids-eq-none_iff (c.client_id ∷ seen) cs in
    let fresh = All-IsFresh-cons seen c cs in
    (
      λ h.
          let (later, apart) = ih.0 (ground arith) in
          let (here, old) = fresh.0 later in ((ground arith, old), (here, apart)),
      λ ((p, old), (here, apart)). ground (arith, ih.1 (fresh.1 (here, old), apart)),
    )

All-IsFresh_nil : (cs : List ClientConfig) → All (IsFresh []) cs
All-IsFresh_nil [] = tt
All-IsFresh_nil (c ∷ cs) = (refl, All-IsFresh_nil cs)

-- The registry is built, with the clients in the given order, exactly when no two clients share an
-- identifier.
pub new_iff : (cs : List ClientConfig) → (new cs ≡ ok (record { clients = cs })) ↔ DistinctIds cs
unfolding new
new_iff cs =
    let ids = check_ids-eq-none_iff [] cs in
    (λ h. (ids.0 (ground arith)).1, λ d. rw (ids.1 (All-IsFresh_nil cs, d), new))

ne_of_Memᴰ :
    {i : String} {c : ClientConfig} {cs : List ClientConfig}
    → All (λ d. i ≢ d.client_id) cs
    → Memᴰ c cs
    → i ≢ c.client_id
ne_of_Memᴰ {cs = []} h m = elim m [ ]
ne_of_Memᴰ {cs = d ∷ cs} h (Memᴰ.head e) = λ p. h.0 (p ∙ ap (λ c. c.client_id) e)
ne_of_Memᴰ {cs = d ∷ cs} h (Memᴰ.tail m) = ne_of_Memᴰ h.1 m

find_of_Memᴰ :
    (c : ClientConfig) (cs : List ClientConfig)
    → DistinctIds cs
    → Memᴰ c cs
    → find (λ d. d.client_id == c.client_id) cs ≡ some c
find_of_Memᴰ c [] d m = elim m [ ]
find_of_Memᴰ c (x ∷ cs) (fresh, rest) (Memᴰ.head e) = rw e (rw (eq_refl x.client_id))
find_of_Memᴰ c (x ∷ cs) (fresh, rest) (Memᴰ.tail m) =
    ground (arith, eq_iff x.client_id c.client_id, ne_of_Memᴰ fresh m, find_of_Memᴰ c cs rest m)

-- A client that an identifier finds is in the registry, and bears it.
pub find_by_id-eq-some :
    (r : ClientRegistry) (i : String) (c : ClientConfig)
    → find_by_id r i ≡ some c
    → Memᴰ c r.clients × (c.client_id ≡ i)
unfolding find_by_id
find_by_id-eq-some r i c e =
    let (m, t) = find-eq-some (λ d. d.client_id == i) r.clients e in (m, (eq_iff c.client_id i).0 t)

-- In a registry that was built, an identifier finds a client exactly when that client is configured
-- and bears it.
pub find_by_id-new :
    (cs : List ClientConfig) (r : ClientRegistry)
    → new cs ≡ ok r
    → (i : String) (c : ClientConfig) → (find_by_id r i ≡ some c) ↔ (Memᴰ c cs × (c.client_id ≡ i))
unfolding new find_by_id
find_by_id-new cs r h i c =
    let same : r.clients ≡ cs = ground arith in
    let distinct = (new_iff cs).0 (ground arith) in
    (
      λ e. let (m, t) = find_by_id-eq-some r i c e in (rw same at m, t),
      λ (m, e). rw (same, ← e) (find_of_Memᴰ c cs distinct m),
    )

-- A redirect URI is accepted for an identifier exactly when the identifier finds a client that lists
-- that very URI.
pub validate_redirect_uri_iff :
    (r : ClientRegistry) (i uri : String)
    → (validate_redirect_uri r i uri ≡ true)
      ↔ ((c : ClientConfig) × (find_by_id r i ≡ some c) × Memᴰ uri c.redirect_uris)
unfolding validate_redirect_uri
validate_redirect_uri_iff r i uri = (
  λ h. elim (Option-cases (find_by_id r i)) [
    | inl e ↦ cc (rw (e, validate_redirect_uri) at h)
    | inr (c, e) ↦
        let (u, m, t) = any-eq-true (λ u. u == uri) c.redirect_uris (ground arith) in
        (c, e, rw (← (eq_iff u uri).0 t) m)
  ],
  λ (c, e, m). rw (e, validate_redirect_uri) (any_of_Memᴰ (λ u. u == uri) m (eq_refl uri)),
)

-- How a client authenticates with what it presents: it has no secret, or presents its secret.
abbrev pub Authenticates : ClientConfig → Option String → Type 0
Authenticates c presented =
    (c.client_secret ≡ none) ⊎ ((s : String) × (c.client_secret ≡ some s) × (presented ≡ some s))

check_secret_iff :
    (secret presented : Option String)
    → (check_secret secret presented ≡ allow)
      ↔ ((secret ≡ none) ⊎ ((s : String) × (secret ≡ some s) × (presented ≡ some s)))
unfolding check_secret
check_secret_iff none presented = (λ _. inl refl, λ _. refl)
check_secret_iff (some expected) none = (λ h. cc, λ h. elim h [ inl e ↦ cc | inr (s, _, e) ↦ cc ])
check_secret_iff (some expected) (some given) =
    let bytes = constant_time_eq_iff (as_bytes expected) (as_bytes given) in
    (
      λ h.
          let same : expected ≡ given = as_bytes_inj expected given (bytes.0 (ground arith)) in
          inr (expected, refl, cc),
      λ h. elim h [
        | inl e ↦ cc
        | inr (s, p, q) ↦ let same : expected ≡ given = cc in rw (bytes.1 (ap as_bytes same))
      ],
    )

-- A client is allowed exactly when its identifier is registered and it is public or presents, byte
-- for byte, its own secret.
pub validate_client_secret_iff :
    (r : ClientRegistry) (i : String) (presented : Option String)
    → (validate_client_secret r i presented ≡ allow)
      ↔ ((c : ClientConfig) × (find_by_id r i ≡ some c) × Authenticates c presented)
unfolding validate_client_secret
validate_client_secret_iff r i presented = (
  λ h. elim (Option-cases (find_by_id r i)) [
    | inl e ↦ cc (rw (e, validate_client_secret) at h)
    | inr (c, e) ↦ (c, e, (check_secret_iff c.client_secret presented).0 (ground arith))
  ],
  λ (c, e, a). rw (e, validate_client_secret) ((check_secret_iff c.client_secret presented).1 a),
)
