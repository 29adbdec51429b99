-- ===== src/Users/Refine.antt =====
-- The byte loop of `split_rdns` finds the parts that the walk over the characters finds.
use Prim.Native.Char.{Char, code}
use Prim.Native.String
use text.Mathlib.TextLemmas
use mathlib.Core.List.{append_assoc}
use openid_tls_connector.Common.{
  ℕ, suc, ◌+◌, ◌-◌, ◌<◌, none, String, ◌≡◌, refl, sym, ap, ◌∙◌, ◌≢◌, inl, inr, true, false, [], ◌∷◌,
  ◌++◌, some, arith, eqb, eqb_iff, length, length-append, Bool-cases,
}
use openid_tls_connector.Common.Text.{utf8, as_bytes, width}
use openid_tls_connector.Common.Text.Slices.{
  size, size-nil, size-cons, size-append, as_bytes-append, byte_slice-append,
  byte_slice_from-append,
}
use openid_tls_connector.Users.{split_loop, split_rdns}
use openid_tls_connector.Users.Rounds.{
  backslash, comma, Rest, Rest-append, round_escape, round_last_backslash, round_comma, round_end,
}
use openid_tls_connector.Users.Split.{
  push, push-append, size-push, parts, parts_plain, parts-comma, parts_escape, parts_skip,
  parts-nil, utf8-IsPlain, utf8_tail, utf8_ascii, pass,
}

module _ (dn : String) where
  -- From any place on, with one round to spare, the loop finds the parts that the walk finds.
  abbrev Splits : String → Type 0
  Splits s =
      (pre cur : String) (k : ℕ)
      → dn ≡ String.◌++◌ pre (String.◌++◌ cur s)
      → split_loop dn (as_bytes dn) (size s + suc k) (size pre) (size pre + size cur)
        ≡ some (parts false cur s)

  Rest-here :
      (pre cur s : String)
      → dn ≡ String.◌++◌ pre (String.◌++◌ cur s)
      → Rest (as_bytes dn) (size pre + size cur) (as_bytes s)
  Rest-here pre cur s e = record {
    before = as_bytes pre ++ as_bytes cur;
    joined =
        ap as_bytes e
        ∙ as_bytes-append pre (String.◌++◌ cur s)
        ∙ ap (λ r. as_bytes pre ++ r) (as_bytes-append cur s)
        ∙ sym (append_assoc (as_bytes pre) (as_bytes cur) (as_bytes s));
    place = length-append (as_bytes pre) (as_bytes cur);
  }

  Rest-char :
      (pre cur : String) (c : Char) (s : String)
      → dn ≡ String.◌++◌ pre (String.◌++◌ cur (String.◌∷◌ c s))
      → Rest (as_bytes dn) (size pre + size cur) (utf8 (code c) ++ as_bytes s)
  unfolding as_bytes
  Rest-char pre cur c s e = Rest-here pre cur (String.◌∷◌ c s) e

  next_char :
      (pre cur : String) (c : Char) (s : String)
      → dn ≡ String.◌++◌ pre (String.◌++◌ cur (String.◌∷◌ c s))
      → dn ≡ String.◌++◌ pre (String.◌++◌ (push cur c) s)
  next_char pre cur c s e = e ∙ ap (String.◌++◌ pre) (sym (push-append cur c s))

  loop_at :
      {f g a b m n : ℕ}
      → f ≡ g
      → a ≡ b
      → m ≡ n
      → split_loop dn (as_bytes dn) f a m ≡ split_loop dn (as_bytes dn) g b n
  loop_at p q r = cc

  Splits-nil : Splits String.[]
  unfolding as_bytes
  Splits-nil pre cur k e =
      loop_at (omega (arith, size-nil)) refl refl
      ∙ round_end dn (as_bytes dn) k (size pre) (size pre + size cur) cur
          (Rest-here pre cur String.[] e)
          (rw (e, TextLemmas.append-nil) (byte_slice_from-append pre cur))
      ∙ ap some (sym (parts-nil false cur))

  Splits-plain :
      (c : Char) (s : String)
      → code c ≢ backslash
      → code c ≢ comma
      → Splits s
      → Splits (String.◌∷◌ c s)
  Splits-plain c s p q ih pre cur k e =
      loop_at (omega (arith, size-cons c s)) refl refl
      ∙ pass dn (as_bytes dn) (utf8 (code c)) (as_bytes s) (size s + suc k) (size pre)
          (size pre + size cur) (utf8-IsPlain (code c) p q) (Rest-char pre cur c s e)
      ∙ loop_at refl refl (omega (arith, size-push cur c))
      ∙ ih pre (push cur c) k (next_char pre cur c s e)
      ∙ ap some (sym (parts_plain cur c s p q))

  Splits-comma : (c : Char) (s : String) → code c ≡ comma → Splits s → Splits (String.◌∷◌ c s)
  Splits-comma c s p ih pre cur k e =
      let one : utf8 (code c) ≡ comma ∷ [] = rw p (utf8_ascii comma (omega arith)) in
      let single : width c ≡ 1 = ap length one in
      let after : String = String.◌++◌ pre (push cur c) in
      let e' : dn ≡ String.◌++◌ after (String.◌++◌ String.[] s) =
        next_char pre cur c s e
        ∙ sym (TextLemmas.append_assoc pre (push cur c) s)
        ∙ ap (String.◌++◌ after) (sym (TextLemmas.nil-append s)) in
      loop_at (omega (arith, size-cons c s)) refl refl
      ∙ round_comma dn (as_bytes dn) (size s + suc k) (size pre) (size pre + size cur) (as_bytes s)
          cur (parts false String.[] s) (rw one at (Rest-char pre cur c s e))
          (rw e (byte_slice-append pre cur (String.◌∷◌ c s)))
          (loop_at refl (omega (arith, size-append pre (push cur c), size-push cur c))
              (omega (arith, size-append pre (push cur c), size-push cur c, size-nil))
            ∙ ih after String.[] k e')
      ∙ ap some (sym (parts-comma cur c s p))

  Splits-last : (c : Char) → code c ≡ backslash → Splits (String.◌∷◌ c String.[])
  unfolding as_bytes
  Splits-last c p pre cur k e =
      let one : utf8 (code c) ≡ backslash ∷ [] = rw p (utf8_ascii backslash (omega arith)) in
      let single : width c ≡ 1 = ap length one in
      loop_at (omega (arith, size-cons c String.[], size-nil)) refl refl
      ∙ round_last_backslash dn (as_bytes dn) (size String.[] + suc k) (size pre)
          (size pre + size cur) (rw one at (Rest-char pre cur c String.[] e))
      ∙ loop_at refl refl (omega (arith, size-push cur c))
      ∙ Splits-nil pre (push cur c) k (next_char pre cur c String.[] e)
      ∙ ap some (
          parts-nil false (push cur c)
          ∙ sym (parts_escape cur c String.[] p ∙ parts-nil true (push cur c)))

  Splits-escape :
      (c d : Char) (s : String)
      → code c ≡ backslash
      → Splits s
      → Splits (String.◌∷◌ c (String.◌∷◌ d s))
  unfolding as_bytes
  Splits-escape c d s p ih pre cur k e =
      let one : utf8 (code c) ≡ backslash ∷ [] = rw p (utf8_ascii backslash (omega arith)) in
      let single : width c ≡ 1 = ap length one in
      let (b, zs, shape, plain) = utf8_tail (code d) in
      let wide : width d ≡ 1 + length zs = ap length shape ∙ omega arith in
      let r : Rest (as_bytes dn) (size pre + size cur) (backslash ∷ b ∷ (zs ++ as_bytes s)) =
        rw (one, shape) at (Rest-char pre cur c (String.◌∷◌ d s) e) in
      loop_at (omega (arith, size-cons c (String.◌∷◌ d s), size-cons d s)) refl refl
      ∙ round_escape dn (as_bytes dn) (length zs + (size s + suc (suc k))) (size pre)
          (size pre + size cur) b (zs ++ as_bytes s) r
      ∙ pass dn (as_bytes dn) zs (as_bytes s) (size s + suc (suc k)) (size pre)
          (size pre + size cur + 2) plain (Rest-append (backslash ∷ b ∷ []) (zs ++ as_bytes s) r)
      ∙ loop_at refl refl (omega (arith, size-push cur c, size-push (push cur c) d))
      ∙ ih pre (push (push cur c) d) (suc k)
          (next_char pre (push cur c) d s (next_char pre cur c (String.◌∷◌ d s) e))
      ∙ ap some (sym (parts_escape cur c (String.◌∷◌ d s) p ∙ parts_skip (push cur c) d s))

  -- A character is a comma, a backslash or neither.
  Splits-char :
      (c : Char) (s : String)
      → Splits s
      → (code c ≡ backslash → Splits (String.◌∷◌ c s))
      → Splits (String.◌∷◌ c s)
  Splits-char c s ih escaped = elim (Bool-cases (eqb (code c) backslash)) [
    | inl p ↦ escaped ((eqb_iff (code c) backslash).0 p)
    | inr p ↦ elim (Bool-cases (eqb (code c) comma)) [
      | inl q ↦ Splits-comma c s ((eqb_iff (code c) comma).0 q) ih
      | inr q ↦ Splits-plain c s (ground arith) (ground arith) ih
    ]
  ]

  Splits-all : (s : String) → Splits s
  Splits-all String.[] = Splits-nil
  Splits-all (String.◌∷◌ c String.[]) = Splits-char c String.[] Splits-nil (λ p. Splits-last c p)
  Splits-all (String.◌∷◌ c (String.◌∷◌ d s)) =
      Splits-char c (String.◌∷◌ d s) (Splits-all (String.◌∷◌ d s))
        (λ p. Splits-escape c d s p (Splits-all s))

split_loop-all :
    (dn : String) (k : ℕ)
    → split_loop dn (as_bytes dn) (suc (length (as_bytes dn)) + k) 0 0
      ≡ some (parts false String.[] dn)
split_loop-all dn k =
    let e : dn ≡ String.◌++◌ String.[] (String.◌++◌ String.[] dn) =
      sym (TextLemmas.nil-append _ ∙ TextLemmas.nil-append dn) in
    loop_at dn {f = suc (length (as_bytes dn)) + k} {m = 0} (omega arith) (sym size-nil)
      (omega (arith, size-nil))
    ∙ Splits-all dn dn String.[] String.[] k e

-- Splitting a name never panics, and gives the parts that a walk over the characters finds: they end
-- at the commas, and a character behind a backslash, which is itself not behind one, is no comma and
-- no backslash.
pub split_rdns_lem : (dn : String) → split_rdns dn ≡ some (parts false String.[] dn)
unfolding split_rdns
split_rdns_lem dn =
    loop_at dn {f = suc (length (as_bytes dn))} (omega arith) refl refl ∙ split_loop-all dn 0

-- The loop of `split_rdns` ends within as many rounds as the name has bytes and one more: with any
-- number of rounds past the bytes it has a result, which is that of `split_rdns`.
pub split_loop_ends :
    (dn : String) (rounds : ℕ)
    → length (as_bytes dn) < rounds
    → (split_loop dn (as_bytes dn) rounds 0 0 ≡ split_rdns dn) × (split_rdns dn ≢ none)
split_loop_ends dn rounds enough =
    let same : split_loop dn (as_bytes dn) rounds 0 0 ≡ some (parts false String.[] dn) =
      loop_at dn {g = suc (length (as_bytes dn)) + (rounds - suc (length (as_bytes dn)))}
        (omega arith) refl refl
      ∙ split_loop-all dn (rounds - suc (length (as_bytes dn))) in
    (same ∙ sym (split_rdns_lem dn), λ e. cc (split_rdns_lem dn))
