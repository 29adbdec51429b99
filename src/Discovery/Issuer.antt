-- ===== src/Discovery/Issuer.antt =====
-- The issuer that the discovery document names.
use Prim.Native.Char.{Char}
use Prim.Native.String
use text.Mathlib.TextLemmas
use text.Mathlib.TextEquality.{Char-path}
use openid_tls_connector.Common.{
  String, ◌≡◌, refl, ap, sym, ◌∙◌, Bool-cases, ◌⊎◌, true, false, some, inl, inr, arith,
}
use openid_tls_connector.Url.{UrlLib}
use openid_tls_connector.Discovery.{
  OidcEndpointPaths, OidcDiscovery, ends_with, pop, canonicalize_issuer, discovery_info,
}

slash_behind :
    (c d : Char) (t : String)
    → String.◌++◌ (String.◌∷◌ c (String.◌∷◌ d t)) "/"
      ≡ String.◌∷◌ c (String.◌∷◌ d (String.◌++◌ t "/"))
slash_behind c d t =
    TextLemmas.cons-append c (String.◌∷◌ d t) "/"
    ∙ ap (String.◌∷◌ c) (TextLemmas.cons-append d t "/")

ends_with_slash : (t : String) → ends_with b'/' (String.◌++◌ t "/") ≡ true
unfolding ends_with
ends_with_slash String.[] = refl
ends_with_slash (String.◌∷◌ c String.[]) = rw (TextLemmas.cons-append c String.[] "/")
ends_with_slash (String.◌∷◌ c (String.◌∷◌ d t)) =
    rw (slash_behind c d t) (
      ap (ends_with b'/') (sym (TextLemmas.cons-append d t "/")) ∙ ends_with_slash (String.◌∷◌ d t))

pop_slash : (t : String) → pop (String.◌++◌ t "/") ≡ t
unfolding pop
pop_slash String.[] = refl
pop_slash (String.◌∷◌ c String.[]) = rw (TextLemmas.cons-append c String.[] "/")
pop_slash (String.◌∷◌ c (String.◌∷◌ d t)) =
    rw (slash_behind c d t) (
      ap (String.◌∷◌ c)
        (ap pop (sym (TextLemmas.cons-append d t "/")) ∙ pop_slash (String.◌∷◌ d t)))

abbrev slash_char : Char
slash_char = "/"

ends_with_cases : (s : String) → ends_with b'/' s ≡ true → (t : String) × (s ≡ String.◌++◌ t "/")
unfolding ends_with
ends_with_cases String.[] h = cc
ends_with_cases (String.◌∷◌ c String.[]) h =
    (String.[], ap (λ (d : Char). String.◌∷◌ d String.[]) (Char-path c slash_char (ground arith)))
ends_with_cases (String.◌∷◌ c (String.◌∷◌ d s)) h =
    let (t, e) = ends_with_cases (String.◌∷◌ d s) h in
    (String.◌∷◌ c t, ap (String.◌∷◌ c) e ∙ sym (TextLemmas.cons-append c t "/"))

module _ (u : UrlLib) where
  -- If the issuer's URL ends in a slash, in whatever part of it that stands, the canonical issuer is
  -- the URL without that one slash; any other URL is canonical as it is.
  pub canonicalize_issuer_cases :
      (issuer : u.Url)
      → ((t : String) × (u.to_text issuer ≡ String.◌++◌ t "/") × (canonicalize_issuer u issuer ≡ t))
        ⊎ ((ends_with b'/' (u.to_text issuer) ≡ false)
            × (canonicalize_issuer u issuer ≡ u.to_text issuer))
  unfolding canonicalize_issuer
  canonicalize_issuer_cases issuer = elim (Bool-cases (ends_with b'/' (u.to_text issuer))) [
    | inl e ↦
        let (t, shape) = ends_with_cases (u.to_text issuer) e in
        inl (t, shape, rw (shape, ends_with_slash t) (pop_slash t))
    | inr e ↦ inr (e, rw e refl)
  ]

  pub canonicalize_slash :
      (issuer : u.Url) (t : String)
      → u.to_text issuer ≡ String.◌++◌ t "/"
      → canonicalize_issuer u issuer ≡ t
  unfolding canonicalize_issuer
  canonicalize_slash issuer t e = rw (e, ends_with_slash t) (pop_slash t)

  -- The document names the canonical issuer, whatever its endpoints.
  pub issuer-discovery_info :
      (issuer : u.Url) (paths : OidcEndpointPaths) (d : OidcDiscovery)
      → discovery_info u issuer paths ≡ some d
      → d.issuer ≡ canonicalize_issuer u issuer
  unfolding discovery_info
  issuer-discovery_info issuer paths d h = ground arith
