-- ===== src/Users/Groups.antt =====
-- The groups of a token: the default groups as they are, and what is new of the client's.
use mathlib.Core.List.{Memᴰ, Sublistᴰ, append-nil, append_assoc}
use openid_tls_connector.Common.{
  String, ◌≡◌, refl, sym, ◌∙◌, inl, inr, true, false, List, [], ◌∷◌, ◌++◌, ◌==◌, eq_iff, eq_refl,
  any, Bool-cases,
}
use openid_tls_connector.Common.Lists.Member.{any-eq-true, any_of_Memᴰ}
use openid_tls_connector.Users.{resolve_groups}

abbrev pub Distinct : List String → Type 0
Distinct [] = Unit
Distinct (g ∷ gs) = ¬ Memᴰ g gs × Distinct gs

-- The union of two lists: the first, then what is new of the second, in its order and once each.
pub record IsUnion (ds cs result : List String) : Type 0 where
  pub added : List String
  pub joined : result ≡ ds ++ added
  pub selected : Sublistᴰ added cs
  pub unknown : (g : String) → Memᴰ g added → ¬ Memᴰ g ds
  pub distinct : Distinct added
  pub complete : (g : String) → Memᴰ g cs → Memᴰ g result

any-eq-false : (g : String) (ds : List String) → any (λ r. r == g) ds ≡ false → ¬ Memᴰ g ds
any-eq-false g ds h m = cc (sym h ∙ any_of_Memᴰ (λ r. r == g) m (eq_refl g))

mem_append_left : {g : String} {ds : List String} (cs : List String) → Memᴰ g ds → Memᴰ g (ds ++ cs)
mem_append_left cs (Memᴰ.head e) = Memᴰ.head e
mem_append_left cs (Memᴰ.tail m) = Memᴰ.tail (mem_append_left cs m)

mem_append_last : (g : String) (ds : List String) → Memᴰ g (ds ++ g ∷ [])
mem_append_last g [] = Memᴰ.head refl
mem_append_last g (d ∷ ds) = Memᴰ.tail (mem_append_last g ds)

IsUnion-known :
    {c : String} {cs ds r : List String}
    → any (λ d. d == c) ds ≡ true
    → IsUnion ds cs r
    → IsUnion ds (c ∷ cs) r
IsUnion-known {c} {cs} {ds} {r} old u = record {
  added = u.added;
  joined = u.joined;
  selected = Sublistᴰ.cons u.selected;
  unknown = u.unknown;
  distinct = u.distinct;
  complete = complete;
}
  where
    complete : (g : String) → Memᴰ g (c ∷ cs) → Memᴰ g r
    complete g (Memᴰ.head e) =
        let (d, m, t) = any-eq-true (λ d. d == c) ds old in
        rw (u.joined, e, ← (eq_iff d c).0 t) (mem_append_left u.added m)
    complete g (Memᴰ.tail m) = u.complete g m

IsUnion-new :
    {c : String} {cs ds r : List String}
    → any (λ d. d == c) ds ≡ false
    → IsUnion (ds ++ c ∷ []) cs r
    → IsUnion ds (c ∷ cs) r
IsUnion-new {c} {cs} {ds} {r} new u = record {
  added = c ∷ u.added;
  joined = u.joined ∙ append_assoc ds (c ∷ []) u.added;
  selected = Sublistᴰ.cons-cons refl u.selected;
  unknown = unknown;
  distinct = (λ m. u.unknown c m (mem_append_last c ds), u.distinct);
  complete = complete;
}
  where
    unknown : (g : String) → Memᴰ g (c ∷ u.added) → ¬ Memᴰ g ds
    unknown g (Memᴰ.head e) n = any-eq-false c ds new (rw e at n)
    unknown g (Memᴰ.tail m) n = u.unknown g m (mem_append_left (c ∷ []) n)

    complete : (g : String) → Memᴰ g (c ∷ cs) → Memᴰ g r
    complete g (Memᴰ.head e) = rw (u.joined, e) (mem_append_left u.added (mem_append_last c ds))
    complete g (Memᴰ.tail m) = u.complete g m

-- The groups are the default groups as they are, also one that is there twice, followed by those of
-- the client's groups that are not among them, in the client's order and each once; every group of
-- the client is among them.
pub resolve_groups-IsUnion : (cs ds : List String) → IsUnion ds cs (resolve_groups cs ds)
unfolding resolve_groups
resolve_groups-IsUnion [] ds = record {
  added = [];
  joined = sym (append-nil ds);
  selected = Sublistᴰ.slnil;
  unknown = λ g m. elim m [ ];
  distinct = tt;
  complete = λ g m. elim m [ ];
}
resolve_groups-IsUnion (c ∷ cs) ds = elim (Bool-cases (any (λ r. r == c) ds)) [
  | inl old ↦ rw (old, resolve_groups) (IsUnion-known old (resolve_groups-IsUnion cs ds))
  | inr new ↦ rw (new, resolve_groups) (IsUnion-new new (resolve_groups-IsUnion cs (ds ++ c ∷ [])))
]
