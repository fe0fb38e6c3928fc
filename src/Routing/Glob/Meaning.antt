-- ===== src/Routing/Glob/Meaning.antt =====
-- What a pattern of internal/routing/routing.go means, and that `globMatch` decides it.
use mathlib.Core.Bool.{false≢true}
use sshhub.Base.{
  ℕ, zero, suc, ◌+◌, ◌*◌, ◌≤◌, ◌<◌, ◌≡◌, ◌≢◌, ◌↔◌, refl, Bool, true, false, [], ◌∷◌, Option, none,
  some, length, ◌==◌, ==_iff, nat_eq, arith, Bool-cases, inl, inr, ◌∙◌, sym, subst, Option-cases,
}
use sshhub.Text.{Str}
use sshhub.Routing.Glob.{star, only_stars, loop, fuel, glob_match}
use sshhub.Routing.Glob.Suffix.{Back, nowhere, back_to, again, scan, loop-scan}

-- A star stands for any bytes, and any other byte for itself.
pub data Matches : Str → Str → Type 0 where
  ends : Matches [] []
  skip_star : {d : ℕ} {p s : Str} → d ≡ star → Matches p s → Matches (d ∷ p) s
  feed_star : {d c : ℕ} {p s : Str} → d ≡ star → Matches (d ∷ p) s → Matches (d ∷ p) (c ∷ s)
  same_byte : {d c : ℕ} {p s : Str} → d ≢ star → d ≡ c → Matches p s → Matches (d ∷ p) (c ∷ s)

-- The pattern matches somewhere in the text: as behind a star.
abbrev Later : Str → Str → Type 0
Later p s = Matches (star ∷ p) s

byte_step : {d c : ℕ} {p s : Str} → d ≢ star → Matches (d ∷ p) (c ∷ s) → (d ≡ c) × Matches p s
byte_step n (skip_star e m) = absurd (n e)
byte_step n (feed_star e m) = absurd (n e)
byte_step n (same_byte _ e m) = (e, m)

not_ended : {d : ℕ} {p : Str} → d ≢ star → ¬ Matches (d ∷ p) []
not_ended n (skip_star e m) = n e

star_step : {d : ℕ} {p s : Str} → d ≡ star → Matches (d ∷ p) s → Later p s
star_step e (skip_star _ m) = skip_star refl m
star_step e (feed_star _ m) = feed_star refl (star_step e m)
star_step e (same_byte n _ m) = absurd (n e)

to_star : {d : ℕ} {p : Str} (s : Str) → d ≡ star → Later p s → Matches (d ∷ p) s
to_star s e (skip_star _ m) = skip_star e m
to_star (c ∷ s) e (feed_star _ m) = feed_star e (to_star s e m)
to_star (c ∷ s) e (same_byte n _ m) = absurd (n refl)

Later-here : {p : Str} → Later p [] → Matches p []
Later-here (skip_star _ m) = m

Later-next : {c : ℕ} {p s : Str} → Later p (c ∷ s) → ¬ Matches p (c ∷ s) → Later p s
Later-next (skip_star _ m) n = absurd (n m)
Later-next (feed_star _ m) n = m
Later-next (same_byte n' _ m) n = absurd (n' refl)

Later-Later : {d : ℕ} {p s : Str} → d ≡ star → Later (d ∷ p) s → Later p s
Later-Later e (skip_star _ m) = star_step e m
Later-Later e (feed_star _ m) = feed_star refl (Later-Later e m)
Later-Later e (same_byte n _ m) = absurd (n refl)

-- Taking the first place where the byte `d` fits loses no match.
Later-byte : {d c : ℕ} {p : Str} (s : Str) → d ≢ star → Later (d ∷ p) (c ∷ s) → Later p s
Later-byte s n (skip_star _ m) = skip_star refl (byte_step n m).1
Later-byte [] n (feed_star _ (skip_star _ m)) = absurd (not_ended n m)
Later-byte (x ∷ s) n (feed_star _ m) = feed_star refl (Later-byte s n m)
Later-byte s n (same_byte n' _ m) = absurd (n' refl)

only_stars_sound : (p : Str) → only_stars p ≡ true → Matches p []
unfolding only_stars
only_stars_sound [] h = ends
only_stars_sound (d ∷ p) h = skip_star (ground arith) (only_stars_sound p (ground arith))

only_stars_complete : {p : Str} → Matches p [] → only_stars p ≡ true
unfolding only_stars
only_stars_complete ends = refl
only_stars_complete (skip_star e m) = ground (arith, only_stars_complete m)

-- An answer, and a right one.
abbrev pub Answers : Type 0 → Option Bool → Type 0
Answers Q none = ⊥
Answers Q (some true) = Q
Answers Q (some false) = ¬ Q

answer : {Q : Type 0} (b : Bool) → (b ≡ true → Q) → (Q → b ≡ true) → Answers Q (some b)
answer true f g = f refl
answer false f g = λ q. false≢true (g q)

-- `Q` is the question, and `width` bounds the patterns in play.
module _ (Q : Type 0) (width : ℕ) where
  -- Going back to the last star is as good as asking the question anew.
  abbrev Resumes : ℕ → Str → Str → Back → Type 0
  Resumes m p s nowhere = Q → Matches p s
  Resumes m p s (back_to bp bs) =
      (Later bp bs → Q)
      × (Q → Later bp bs)
      × (Matches bp bs → Matches p s)
      × (length s ≤ length bs)
      × (length bs ≤ m)
      × (length bp < width)

  record State (f m : ℕ) (p s : Str) (back : Back) : Type 0 where
    sound : Matches p s → Q
    open_end : Q → Later p s
    resumes : Resumes m p s back
    short : length s ≤ m
    narrow : length p < width
    fuelled : m * width + length p < f

  restart :
      {f m : ℕ} {p s : Str}
      → (Later p s → Q)
      → (Q → Later p s)
      → length s ≤ m
      → length p < width
      → m * width + length p < f
      → State f m p s (back_to p s)
  restart to from hs hp hf = record {
    sound = λ m. to (skip_star refl m);
    open_end = from;
    resumes = (to, from, λ m. m, omega arith, hs, hp);
    short = hs;
    narrow = hp;
    fuelled = hf;
  }

  resume_byte :
      {d : ℕ} (c m : ℕ) (p s : Str) (back : Back)
      → d ≢ star
      → Resumes m (d ∷ p) (c ∷ s) back
      → Resumes m p s back
  resume_byte c m p s nowhere n r = λ q. (byte_step n (r q)).1
  resume_byte c m p s (back_to bp bs) n (to, from, down, le, hs, hp) =
      (to, from, λ x. (byte_step n (down x)).1, omega arith, hs, hp)

  again-Answers :
      {f c : ℕ} {p s : Str} (m : ℕ) (back : Back) (go : Str → Str → Back → Option Bool)
      → ((m' : ℕ) (p' s' : Str) (b : Back) → State f m' p' s' b → Answers Q (go p' s' b))
      → State (suc f) m p (c ∷ s) back
      → ¬ Matches p (c ∷ s)
      → Answers Q (again back go)
  unfolding again
  again-Answers m nowhere go ih st n = λ q. n (st.resumes q)
  again-Answers m (back_to bp []) go ih st n = absurd (omega arith)
  again-Answers zero (back_to bp (x ∷ bs)) go ih st n = absurd (omega arith)
  again-Answers (suc m) (back_to bp (x ∷ bs)) go ih st n =
      let (to, from, down, _, _, _) = st.resumes in
      ih m bp bs (back_to bp bs) (
        restart (λ l. to (feed_star refl l)) (λ q. Later-next (from q) (λ x. n (down x)))
          (omega arith) (omega arith) (omega arith))

  scan-Answers :
      (f m : ℕ) (p s : Str) (back : Back) → State f m p s back → Answers Q (scan f p s back)
  unfolding scan
  scan-Answers zero m p s back st = omega arith
  scan-Answers (suc f) m p [] back st =
      answer (only_stars p) (λ h. st.sound (only_stars_sound p h))
        (λ q. only_stars_complete (Later-here (st.open_end q)))
  scan-Answers (suc f) m [] (c ∷ s) back st =
      again-Answers m back (scan f) (scan-Answers f) st (λ x. elim x [ ])
  scan-Answers (suc f) m (d ∷ p) (c ∷ s) back st = elim (Bool-cases (d == star)) [
    | inl e ↦
        let at_star = (==_iff d star).0 e in
        rw e (
          scan-Answers f m p (c ∷ s) (back_to p (c ∷ s)) (
            restart (λ l. st.sound (to_star (c ∷ s) at_star l))
              (λ q. Later-Later at_star (st.open_end q)) st.short (omega arith) (omega arith)))
    | inr e ↦
        let plain : d ≢ star = λ h. false≢true (sym e ∙ (==_iff d star).1 h) in
        elim (Bool-cases (d == c)) [
          | inl e' ↦
              rw (e, e')
                (scan-Answers f m p s back (record {
                  sound = λ x. st.sound (same_byte plain ((==_iff d c).0 e') x);
                  open_end = λ q. Later-byte s plain (st.open_end q);
                  resumes = resume_byte c m p s back plain st.resumes;
                  short = omega arith;
                  narrow = omega arith;
                  fuelled = omega arith;
                }))
          | inr e' ↦
              rw (e, e')
                (again-Answers m back (scan f) (scan-Answers f) st
                  (λ x. false≢true (sym e' ∙ (==_iff d c).1 (byte_step plain x).0)))
        ]
  ]

-- The loop of `globMatch` ends within its fuel, reads no byte out of range, and is right.
loop-Answers :
    (pattern value : Str)
    → Answers (Matches pattern value) (loop (fuel pattern value) pattern value 0 0 none)
loop-Answers pattern value = rw (loop-scan (fuel pattern value) pattern value 0 0 none tt) (
    scan-Answers (Matches pattern value) (length pattern + 1) (fuel pattern value) (length value)
      pattern value nowhere
      (record {
        sound = λ m. m;
        open_end = λ m. skip_star refl m;
        resumes = λ m. m;
        short = omega arith;
        narrow = omega arith;
        fuelled = omega arith;
      }))

-- The first loop of `globMatch` gives an answer within `(len(value) + 1) * (len(pattern) + 1)` rounds.
pub loop-total :
    (pattern value : Str) → (b : Bool) × (loop (fuel pattern value) pattern value 0 0 none ≡ some b)
loop-total pattern value = elim (Option-cases (loop (fuel pattern value) pattern value 0 0 none)) [
  | inl e ↦ absurd (subst (Answers (Matches pattern value)) e (loop-Answers pattern value))
  | inr r ↦ r
]

decided :
    (Q : Type 0) (o : Option Bool)
    → Answers Q o
    → ((elim o [ none ↦ false | some b ↦ b ]) ≡ true) ↔ Q
decided Q none a = absurd a
decided Q (some true) a = (λ h. a, λ q. refl)
decided Q (some false) a = (λ h. absurd (false≢true h), λ q. absurd (a q))

-- `globMatch` answers true exactly on the texts that the pattern matches, a star standing for any
-- bytes and every other byte for itself.
pub glob_match_iff :
    (pattern value : Str) → (glob_match pattern value ≡ true) ↔ Matches pattern value
unfolding glob_match
glob_match_iff pattern value = decided (Matches pattern value) _ (loop-Answers pattern value)
