-- ===== src/Proxy/Channels/Bounds.antt =====
-- The slots of a client of internal/proxy/proxy.go, and what its channels lead to.
use mathlib.Core.Option.{some-injective}
use sshhub.Base.{
  ℕ, ◌≤◌, ◌≡◌, refl, sym, subst, ◌∙◌, Bool, true, Option, none, some, ltb, length, ◌==◌, nat_eq,
  Bool-cases, inl, inr, arith,
}
use sshhub.Base.Dict.{
  lookup, insert, erase, lookup-insert, lookup-erase, length-insert, length-insert_old,
  length-erase,
}
use sshhub.Text.{Str, str_eq}
use sshhub.Config.{Config}
use sshhub.Control.Registry.{Registry}
use sshhub.Proxy.{
  Forwarded, Payload, forward, only_port_22, destination_denied, unavailable, not_accepted, bridged,
}
use sshhub.Proxy.Channels.{
  channel_slots, Channel, undecided, copying, Client, Dispatch, not_direct, channel_limit, taken,
  dispatch, Event, opens, decides, ends, admit, settle, decide, finish, step,
}

module _ (Leads : Str → ℕ → Type 0) where
  -- Each channel that copies leads where it may, and the channels are not more than the slots.
  pub record Within (c : Client) : Type 0 where
    pub leads : (n : ℕ) (id : Str) (s : ℕ) → lookup n c.channels ≡ some (copying id s) → Leads id s
    pub bounded : length c.channels ≤ channel_slots

  erase-Within :
      (n : ℕ) (c : Client) → Within c → Within (record c { channels = erase n c.channels })
  erase-Within n c h = record {
    leads = λ m id s e. h.leads m id s (ground (arith, lookup-erase m n c.channels));
    bounded = omega (arith, length-erase n c.channels, h.bounded);
  }

  insert-leads :
      (n : ℕ) (x : Channel) (c : Client)
      → ((id : Str) (s : ℕ) → x ≡ copying id s → Leads id s)
      → Within c
      → (m : ℕ) (id : Str) (s : ℕ) → lookup m (insert n x c.channels) ≡ some (copying id s)
      → Leads id s
  insert-leads n x c new h m id s e = elim (Bool-cases (m == n)) [
    | inr other ↦ h.leads m id s (ground (arith, lookup-insert m n x c.channels))
    | inl same ↦
        new id s
          (some-injective x (copying id s) (rw same at (sym (lookup-insert m n x c.channels) ∙ e)))
  ]

  copying-leads : (id j : Str) (s t : ℕ) → Leads id s → copying id s ≡ copying j t → Leads j t
  copying-leads id j s t it e =
      let same : Path (Str × ℕ) (id, s) (j, t) = cc in
      subst (λ (x : Str × ℕ). Leads x.0 x.1) same it

  settle-Within :
      (n : ℕ) (p : Option Payload) (f : Forwarded) (c : Client)
      → lookup n c.channels ≡ some (undecided p)
      → ((id : Str) (s : ℕ) → f ≡ bridged id s → Leads id s)
      → Within c
      → Within (settle n f c)
  unfolding settle
  settle-Within n p only_port_22 c here new h = erase-Within n c h
  settle-Within n p destination_denied c here new h = erase-Within n c h
  settle-Within n p unavailable c here new h = erase-Within n c h
  settle-Within n p not_accepted c here new h = erase-Within n c h
  settle-Within n p (bridged id s) c here new h = record {
    leads = insert-leads n (copying id s) c (λ j t e. copying-leads id j s t (new id s refl) e) h;
    bounded =
        subst (λ k. k ≤ channel_slots)
          (sym (length-insert_old n (copying id s) (undecided p) c.channels here)) h.bounded;
  }

  admit-Within :
      (d : Dispatch) (p : Option Payload) (c : Client)
      → (d ≡ taken → ltb (length c.channels) channel_slots ≡ true)
      → Within c
      → Within (admit d p c)
  unfolding admit
  admit-Within not_direct p c free h = h
  admit-Within channel_limit p c free h = h
  admit-Within taken p c free h = record {
    leads = insert-leads c.next (undecided p) c (λ id s e. absurd (cc)) h;
    bounded = ground (arith, free refl, length-insert c.next (undecided p) c.channels);
  }

  dispatch-taken :
      (channel_type : Str) (busy : ℕ)
      → dispatch channel_type busy ≡ taken
      → ltb busy channel_slots ≡ true
  unfolding dispatch
  dispatch-taken channel_type busy e = ground arith

  module _ (cfg : Config) (yamux_opens : ℕ → Bool) (registry : Registry) where
    decide-Within :
        (n : ℕ) (accepts : Bool) (x : Option Channel) (c : Client)
        → ((p : Option Payload) (id : Str) (s : ℕ)
            → forward cfg yamux_opens registry c.user p accepts ≡ bridged id s
            → Leads id s)
        → lookup n c.channels ≡ x
        → Within c
        → Within (decide cfg yamux_opens registry n accepts x c)
    unfolding decide
    decide-Within n accepts none c new e h = h
    decide-Within n accepts (some (copying id s)) c new e h = h
    decide-Within n accepts (some (undecided p)) c new e h =
        settle-Within n p (forward cfg yamux_opens registry c.user p accepts) c e (new p) h

    finish-Within : (n : ℕ) (x : Option Channel) (c : Client) → Within c → Within (finish n x c)
    unfolding finish
    finish-Within n none c h = h
    finish-Within n (some (undecided p)) c h = h
    finish-Within n (some (copying id s)) c h = erase-Within n c h

    -- If every channel that `forward` bridges leads where it may, they all do after any event.
    pub step-Within :
        (e : Event) (c : Client)
        → ((p : Option Payload) (accepts : Bool) (id : Str) (s : ℕ)
            → forward cfg yamux_opens registry c.user p accepts ≡ bridged id s
            → Leads id s)
        → Within c
        → Within (step cfg yamux_opens registry e c)
    unfolding step
    step-Within (opens channel_type p) c new h =
        admit-Within (dispatch channel_type (length c.channels)) p c
          (dispatch-taken channel_type (length c.channels)) h
    step-Within (decides n accepts) c new h =
        decide-Within n accepts (lookup n c.channels) c (λ p. new p accepts) refl h
    step-Within (ends n) c new h = finish-Within n (lookup n c.channels) c h

admit-user : (d : Dispatch) (p : Option Payload) (c : Client) → (admit d p c).user ≡ c.user
unfolding admit
admit-user not_direct p c = refl
admit-user channel_limit p c = refl
admit-user taken p c = refl

settle-user : (n : ℕ) (f : Forwarded) (c : Client) → (settle n f c).user ≡ c.user
unfolding settle
settle-user n only_port_22 c = refl
settle-user n destination_denied c = refl
settle-user n unavailable c = refl
settle-user n not_accepted c = refl
settle-user n (bridged id s) c = refl

finish-user : (n : ℕ) (x : Option Channel) (c : Client) → (finish n x c).user ≡ c.user
unfolding finish
finish-user n none c = refl
finish-user n (some (undecided p)) c = refl
finish-user n (some (copying id s)) c = refl

module _ (cfg : Config) (yamux_opens : ℕ → Bool) (registry : Registry) where
  decide-user :
      (n : ℕ) (accepts : Bool) (x : Option Channel) (c : Client)
      → (decide cfg yamux_opens registry n accepts x c).user ≡ c.user
  unfolding decide
  decide-user n accepts none c = refl
  decide-user n accepts (some (copying id s)) c = refl
  decide-user n accepts (some (undecided p)) c =
      settle-user n (forward cfg yamux_opens registry c.user p accepts) c

  pub step-user : (e : Event) (c : Client) → (step cfg yamux_opens registry e c).user ≡ c.user
  unfolding step
  step-user (opens channel_type p) c = admit-user (dispatch channel_type (length c.channels)) p c
  step-user (decides n accepts) c = decide-user n accepts (lookup n c.channels) c
  step-user (ends n) c = finish-user n (lookup n c.channels) c
