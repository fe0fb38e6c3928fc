-- ===== src/Routing/Glob/Suffix.antt =====
-- The loop of `globMatch` on what is left of the two texts, in place of the two indices.
use sshhub.Base.{
  ℕ, zero, suc, ◌+◌, ◌≡◌, ◌≤◌, refl, Bool, true, false, [], ◌∷◌, Option, none, some, get_elem?,
  drop, if◌then◌else◌, ◌==◌, nat_eq, arith, Option-cases, inl, inr, ap, ◌∙◌,
}
use sshhub.Text.{Str}
use sshhub.Routing.Glob.{star, Mark, byte_is, only_stars, retry, loop}

-- The texts behind the last star, to which the loop goes back.
pub data Back : Type 0 where
  nowhere : Back
  back_to : Str → Str → Back

-- One more byte for the last star. At the end of the text the loop does not ask for one.
unfoldable pub again : Back → (Str → Str → Back → Option Bool) → Option Bool
again nowhere go = some false
again (back_to p []) go = some false
again (back_to p (c ∷ s)) go = go p s (back_to p s)

unfoldable pub scan : ℕ → Str → Str → Back → Option Bool
unfolding again
scan zero p s back = none
scan (suc f) p [] back = some (only_stars p)
scan (suc f) [] (c ∷ s) back = again back (scan f)
scan (suc f) (d ∷ p) (c ∷ s) back =
    let at_star = scan f p (c ∷ s) (back_to p (c ∷ s)) in
    let onward = scan f p s back in
    let retry = again back (scan f) in
    if d == star then at_star else if d == c then onward else retry

drop-get_elem? : (s : Str) (i c : ℕ) → get_elem? s i ≡ some c → drop i s ≡ c ∷ drop (i + 1) s
drop-get_elem? [] i c h = ground arith
drop-get_elem? (d ∷ s) zero c h = ground arith
drop-get_elem? (d ∷ s) (suc i) c h = ground (arith, drop-get_elem? s i c)

drop-past : (s : Str) (i : ℕ) → get_elem? s i ≡ none → drop i s ≡ []
drop-past [] zero h = refl
drop-past [] (suc i) h = refl
drop-past (d ∷ s) zero h = ground arith
drop-past (d ∷ s) (suc i) h = drop-past s i h

get_elem?-earlier :
    (s : Str) (i j c : ℕ) → i ≤ j → get_elem? s j ≡ some c → (d : ℕ) × (get_elem? s i ≡ some d)
get_elem?-earlier [] i j c h e = cc
get_elem?-earlier (d ∷ s) zero j c h e = (d, refl)
get_elem?-earlier (d ∷ s) (suc i) zero c h e = absurd (omega arith)
get_elem?-earlier (d ∷ s) (suc i) (suc j) c h e = get_elem?-earlier s i j c (omega arith) e

abbrev pub suffix : Str → Str → Mark → Back
suffix pattern value none = nowhere
suffix pattern value (some (s, mark)) = back_to (drop (s + 1) pattern) (drop mark value)

abbrev pub IsBehind : ℕ → Mark → Type 0
IsBehind v none = Unit
IsBehind v (some (s, mark)) = mark ≤ v

-- Both loops go back alike.
retry-again :
    (pattern value : Str) (v c : ℕ) (back : Mark) (next : ℕ → ℕ → Mark → Option Bool)
    (go : Str → Str → Back → Option Bool)
    → get_elem? value v ≡ some c
    → IsBehind v back
    → ((p v : ℕ) (b : Mark)
        → IsBehind v b
        → next p v b ≡ go (drop p pattern) (drop v value) (suffix pattern value b))
    → retry back next ≡ again (suffix pattern value back) go
unfolding retry again
retry-again pattern value v c none next go e h same = refl
retry-again pattern value v c (some (s, mark)) next go e h same =
    let (d, here) = get_elem?-earlier value mark v c h e in
    rw (drop-get_elem? value mark d here)
      (same (s + 1) (mark + 1) (some (s, mark + 1)) (omega arith))

IsBehind-later : (v : ℕ) (back : Mark) → IsBehind v back → IsBehind (v + 1) back
IsBehind-later v none h = tt
IsBehind-later v (some (s, mark)) h = omega arith

if_same :
    (a b : Bool) {x x' y y' z z' : Option Bool}
    → x ≡ x'
    → y ≡ y'
    → z ≡ z'
    → (if a then x else if b then y else z) ≡ (if a then x' else if b then y' else z')
if_same true b p q r = p
if_same false true p q r = q
if_same false false p q r = r

-- Over the rest of the texts the loop of the source is `scan`.
pub loop-scan :
    (f : ℕ) (pattern value : Str) (p v : ℕ) (back : Mark)
    → IsBehind v back
    → loop f pattern value p v back
      ≡ scan f (drop p pattern) (drop v value) (suffix pattern value back)
unfolding loop scan byte_is
loop-scan zero pattern value p v back h = refl
loop-scan (suc f) pattern value p v back h = elim (Option-cases (get_elem? value v)) [
  | inl ends ↦ rw (ends, loop) (rw (drop-past value v ends) refl)
  | inr (c, more) ↦
      let same : retry back (loop f pattern value) ≡ again (suffix pattern value back) (scan f) =
        retry-again pattern value v c back (loop f pattern value) (scan f) more h
          (loop-scan f pattern value) in
      elim (Option-cases (get_elem? pattern p)) [
        | inl over ↦
            rw (more, loop)
              (rw (over, byte_is)
                (rw (drop-get_elem? value v c more, drop-past pattern p over) same))
        | inr (d, e) ↦
            rw (more, loop)
              (rw (e, byte_is)
                (rw (drop-get_elem? value v c more, drop-get_elem? pattern p d e)
                  (if_same (d == star) (d == c)
                    (loop-scan f pattern value (p + 1) v (some (p, v)) (omega arith)
                      ∙ ap (λ t. scan f (drop (p + 1) pattern) t (back_to (drop (p + 1) pattern) t))
                          (drop-get_elem? value v c more))
                    (loop-scan f pattern value (p + 1) (v + 1) back (IsBehind-later v back h))
                    same)))
      ]
]
