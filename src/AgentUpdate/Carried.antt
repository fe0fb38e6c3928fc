-- ===== src/AgentUpdate/Carried.antt =====
-- `currentAgentArgs` of cmd/sshhub-agent-update/main.go, beside what it carries over from the command
-- line of the agent's unit.
use sshhub.Base.Results.{ok, err, err-ne-ok, from_ok, bind_inv, reject_if_inv}
use sshhub.Base.{
  ◌≡◌, refl, sym, subst, true, false, ◌||◌, List, [], ◌∷◌, ◌++◌, Option, none, some, arith, ◌==◌,
  ==_iff, nat_eq, Bool-cases, ◌∙◌, append-nil, append_assoc, ◌⊎◌, inl, inr,
}
use sshhub.Text.{Str, codes, fields, str_eq}
use sshhub.AgentUpdate.{
  has_text, token_path, carried, flags_of, current_agent_args, no_args, no_flags, malformed,
  durable_token,
}

abbrev pub Setting : Str → Type 0
Setting f = (f ≡ codes "--hub") ⊎ ((f ≡ codes "--hub-pin") ⊎ (f ≡ codes "--sshd"))

abbrev pub IsKept : Str → Type 0
IsKept f = Setting f ⊎ (f ≡ codes "--token-file")

-- The flags that are carried over from the fields of a unit's command line, in their order and each with
-- the value that it has there; only a token file that is one of the unit's credentials becomes the one
-- that outlives the unit. Every other field is left out.
pub data CarriedFrom : List Str → List Str → Type 0 where
  nothing : CarriedFrom [] []
  other :
      (f : Str) (fs args : List Str) → ¬ IsKept f → CarriedFrom fs args → CarriedFrom (f ∷ fs) args
  setting :
      (f v : Str) (fs args : List Str)
      → Setting f
      → CarriedFrom fs args
      → CarriedFrom (f ∷ v ∷ fs) (f ∷ v ∷ args)
  token :
      (v : Str) (fs args : List Str)
      → has_text v (codes "/credentials/") ≡ false
      → CarriedFrom fs args
      → CarriedFrom (codes "--token-file" ∷ v ∷ fs) (codes "--token-file" ∷ v ∷ args)
  credential :
      (v : Str) (fs args : List Str)
      → has_text v (codes "/credentials/") ≡ true
      → CarriedFrom fs args
      → CarriedFrom (codes "--token-file" ∷ v ∷ fs) (codes "--token-file" ∷ durable_token ∷ args)

which :
    (f : Str)
    → (f == codes "--hub" || (f == codes "--hub-pin" || f == codes "--sshd")) ≡ true
    → (f ≡ codes "--hub") ⊎ ((f ≡ codes "--hub-pin") ⊎ (f ≡ codes "--sshd"))
which f h = elim (Bool-cases (f == codes "--hub")) [
  | inl e ↦ inl ((==_iff f (codes "--hub")).0 e)
  | inr n ↦ elim (Bool-cases (f == codes "--hub-pin")) [
    | inl e ↦ inr (inl ((==_iff f (codes "--hub-pin")).0 e))
    | inr n' ↦ inr (inr ((==_iff f (codes "--sshd")).0 (ground arith)))
  ]
]

matches_no_case :
    (f : Str)
    → (f == codes "--hub" || (f == codes "--hub-pin" || f == codes "--sshd")) ≡ false
    → (f == codes "--token-file") ≡ false
    → ¬ IsKept f
matches_no_case f h h' (inl (inl e)) = ground (arith, (==_iff f (codes "--hub")).1 e)
matches_no_case f h h' (inl (inr (inl e))) = ground (arith, (==_iff f (codes "--hub-pin")).1 e)
matches_no_case f h h' (inl (inr (inr e))) = ground (arith, (==_iff f (codes "--sshd")).1 e)
matches_no_case f h h' (inr e) = ground (arith, (==_iff f (codes "--token-file")).1 e)

-- What one field is, by the switch.
pub data Switch (f v : Str) : Option Str → Type 0 where
  left_out : ¬ IsKept f → Switch f v none
  as_it_is : Setting f → Switch f v (some v)
  as_token : f ≡ codes "--token-file" → Switch f v (some (token_path v))

carried-Switch : (f v : Str) → Switch f v (carried f v)
unfolding carried
carried-Switch f v =
    elim (Bool-cases (f == codes "--hub" || (f == codes "--hub-pin" || f == codes "--sshd"))) [
      | inl is_setting ↦ rw is_setting (as_it_is (which f is_setting))
      | inr no_setting ↦ elim (Bool-cases (f == codes "--token-file")) [
        | inl is_token ↦
            rw (no_setting, is_token) (as_token ((==_iff f (codes "--token-file")).0 is_token))
        | inr no_token ↦
            rw (no_setting, no_token) (left_out (λ k. matches_no_case f no_setting no_token k))
      ]
    ]

token-CarriedFrom :
    (f v : Str) (fs args : List Str)
    → f ≡ codes "--token-file"
    → CarriedFrom fs args
    → CarriedFrom (f ∷ v ∷ fs) (f ∷ token_path v ∷ args)
unfolding token_path
token-CarriedFrom f v fs args e c =
    subst (λ g. CarriedFrom (g ∷ v ∷ fs) (g ∷ token_path v ∷ args)) (sym e)
      (elim (Bool-cases (has_text v (codes "/credentials/"))) [
        | inl sandbox ↦ rw sandbox (credential v fs args sandbox c)
        | inr plain ↦ rw plain (token v fs args plain c)
      ])

-- What the loop adds to its arguments.
abbrev Added : List Str → List Str → List Str → Type 0
Added fs args args' = (new : List Str) × (args' ≡ args ++ new) × CarriedFrom fs new

flags_of-Added : (fs args args' : List Str) → flags_of fs args ≡ ok args' → Added fs args args'
unfolding flags_of
flags_of-Added [] args args' h = ([], sym (from_ok h) ∙ sym (append-nil args), nothing)
flags_of-Added (f ∷ []) args args' h = go (carried f []) (carried-Switch f []) h
  where
    go :
        (o : Option Str)
        → Switch f [] o
        → (elim o [ none ↦ ok args | some x ↦ err malformed ]) ≡ ok args'
        → Added (f ∷ []) args args'
    go (some x) w h = absurd (err-ne-ok h)
    go none (left_out skipped) h =
        ([], sym (from_ok h) ∙ sym (append-nil args), other f [] [] skipped nothing)
flags_of-Added (f ∷ v ∷ rest) args args' h =
    go (carried f v) (carried-Switch f v) (λ a. flags_of-Added (v ∷ rest) a args')
      (λ a. flags_of-Added rest a args') h
  where
    go :
        (o : Option Str)
        → Switch f v o
        → ((a : List Str) → flags_of (v ∷ rest) a ≡ ok args' → Added (v ∷ rest) a args')
        → ((a : List Str) → flags_of rest a ≡ ok args' → Added rest a args')
        → (elim o [
          | none ↦ flags_of (v ∷ rest) args
          | some v' ↦ flags_of rest (args ++ f ∷ v' ∷ [])
        ])
          ≡ ok args'
        → Added (f ∷ v ∷ rest) args args'
    go none (left_out skipped) skip take h =
        let (new, e, c) = skip args h in (new, e, other f (v ∷ rest) new skipped c)
    go (some v') (as_it_is is) skip take h =
        let (new, e, c) = take (args ++ f ∷ v ∷ []) h in
        (f ∷ v ∷ new, e ∙ append_assoc args (f ∷ v ∷ []) new, setting f v rest new is c)
    go (some v') (as_token is) skip take h =
        let (new, e, c) = take (args ++ f ∷ token_path v ∷ []) h in
        (
          f ∷ token_path v ∷ new,
          e ∙ append_assoc args (f ∷ token_path v ∷ []) new,
          token-CarriedFrom f v rest new is c,
        )

-- The arguments come from the fields of what systemd says of the unit.
abbrev pub FromUnit : Option Str → List Str → Type 0
FromUnit unit args = (out : Str) × (unit ≡ some out) × CarriedFrom (fields out) args

pub current_agent_args-FromUnit :
    (unit : Option Str) (args : List Str) → current_agent_args unit ≡ ok args → FromUnit unit args
unfolding current_agent_args
current_agent_args-FromUnit none args h = absurd (err-ne-ok h)
current_agent_args-FromUnit (some out) args h =
    let (found, read, h1) = bind_inv (flags_of (fields out) []) _ h in
    let (_, h2) = reject_if_inv (no_args found) no_flags _ h1 in
    let (new, e, c) = flags_of-Added (fields out) [] found read in
    (out, refl, subst (CarriedFrom (fields out)) (sym e ∙ from_ok h2) c)
