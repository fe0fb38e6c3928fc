-- ===== src/Ctl/Listing/Live.antt =====
-- What "list" of cmd/sshhub-ctl/main.go shows of a running hub.
use sshhub.Base.{
  contains, ℕ, ◌+◌, ◌≡◌, ◌≢◌, refl, sym, ap, subst, ◌∙◌, List, [], ◌∷◌, Option, none, some, ◌==◌,
  ==_iff, Bool-cases, Option-cases, ◌⊎◌, inl, inr, In, arith,
}
use sshhub.Base.Dict.{Map, put, lookup, Distinct}
use sshhub.Text.{Str, str_eq}
use sshhub.Config.{Backend, Route}
use sshhub.Control.Registry.{Registry, Connection, BackendStatus, status, status_of}
use sshhub.Control.Server.{TokenResolver, Event, run, empty_hub}
use sshhub.Control.Distinct.{run-Distinct}
use sshhub.Control.Listing.{Listed, status-Sorted}
use sshhub.Ctl.Listing.Users.{Once, leads, end_users-leads}
use sshhub.Admin.{answer_status}
use sshhub.Ctl.Listing.{live_from, live, row_of, rows, Row, end_users, count_online, one_if_some}

-- A list without an entry for the backend says nothing about it.
live_from-absent :
    (bs : List BackendStatus) (m : Map Str BackendStatus) (id : Str)
    → ((s : BackendStatus) → In s bs → s.backend ≢ id)
    → live_from bs m id ≡ m id
unfolding live_from
live_from-absent [] m id h = refl
live_from-absent (b ∷ bs) m id h =
    live_from-absent bs (put b.backend b m) id (λ s i. h s (inr i)) ∙ ground (arith, h b (inl refl))

-- Where every entry for the backend is `s`, and there is one, the map has it.
live_from-present :
    (bs : List BackendStatus) (m : Map Str BackendStatus) (id : Str) (s : BackendStatus)
    → ((t : BackendStatus) → In t bs → t.backend ≡ id → t ≡ s)
    → (In s bs × (s.backend ≡ id)) ⊎ (m id ≡ some s)
    → live_from bs m id ≡ some s
unfolding live_from
live_from-present [] m id s only here = elim here [ inl (i, _) ↦ absurd i | inr e ↦ e ]
live_from-present (b ∷ bs) m id s only here =
    live_from-present bs (put b.backend b m) id s (λ t i. only t (inr i))
      (elim (Bool-cases (id == b.backend)) [
        | inl same ↦
            inr (rw same (ap some (only b (inl refl) (sym ((==_iff id b.backend).0 same)))))
        | inr other ↦ rw other (elim here [
          | inr e ↦ inr e
          | inl (i, e) ↦ elim i [
            | inr j ↦ inl (j, e)
            | inl same ↦ absurd (ground (arith, ap (λ (x : BackendStatus). x.backend) same))
          ]
        ])
      ])

Listed-absent :
    (r : Registry) (id : Str)
    → lookup id r ≡ none
    → (s : BackendStatus) → Listed r s
    → s.backend ≢ id
unfolding lookup status_of
Listed-absent [] id h s l e = absurd l
Listed-absent ((j, c) ∷ r) id h s l e = elim (Bool-cases (id == j)) [
  | inl same ↦ absurd (ground arith)
  | inr other ↦ elim l [
    | inr i ↦ Listed-absent r id (rw other at h) s i e
    | inl new ↦ absurd (ground (arith, ap (λ (x : BackendStatus). x.backend) new))
  ]
]

Listed-lookup :
    (r : Registry) (id : Str) (c : Connection) → lookup id r ≡ some c → Listed r (status_of id c)
unfolding lookup
Listed-lookup [] id c h = absurd (cc)
Listed-lookup ((j, w) ∷ r) id c h = elim (Bool-cases (id == j)) [
  | inl same ↦
      let same_id : id ≡ j = (==_iff id j).0 same in
      let entry : w ≡ c = ground arith in
      inl (subst (λ i. status_of i c ≡ status_of j w) (sym same_id) (ap (status_of j) (sym entry)))
  | inr other ↦ inr (Listed-lookup r id c (rw other at h))
]

Listed-only :
    (r : Registry) (id : Str) (c : Connection)
    → Distinct r
    → lookup id r ≡ some c
    → (s : BackendStatus) → Listed r s
    → s.backend ≡ id
    → s ≡ status_of id c
unfolding lookup status_of
Listed-only [] id c d h s l e = absurd l
Listed-only ((j, w) ∷ r) id c (free, d) h s l e = elim (Bool-cases (id == j)) [
  | inl same ↦
      let same_id : id ≡ j = (==_iff id j).0 same in
      let entry : w ≡ c = ground arith in
      elim l [
        | inl new ↦ subst (λ i. s ≡ status_of i c) (sym same_id) (new ∙ ap (status_of j) entry)
        | inr i ↦ absurd (Listed-absent r j free s i (e ∙ same_id))
      ]
  | inr other ↦ elim l [
    | inl new ↦ absurd (ground (arith, ap (λ (x : BackendStatus). x.backend) new))
    | inr i ↦ Listed-only r id c d (rw other at h) s i e
  ]
]

-- The tunnel of a backend as the status has it.
unfoldable pub shown_tunnel : Registry → Str → Option BackendStatus
shown_tunnel r id = elim (lookup id r) [ none ↦ none | some c ↦ some (status_of id c) ]

live-shown_tunnel :
    (version : Str) (started : ℕ) (r : Registry) (id : Str)
    → Distinct r
    → live (some (answer_status version started r)) id ≡ shown_tunnel r id
unfolding live answer_status shown_tunnel status_of
live-shown_tunnel version started r id d = elim (Option-cases (lookup id r)) [
  | inl e ↦
      rw (e, shown_tunnel)
        (live_from-absent (status r) (λ i. none) id
          (λ s i. Listed-absent r id e s (((status-Sorted r).1 s).0 i)))
  | inr (c, e) ↦
      rw (e, shown_tunnel)
        (live_from-present (status r) (λ i. none) id (status_of id c)
          (λ s i. Listed-only r id c d e s (((status-Sorted r).1 s).0 i))
          (inl (((status-Sorted r).1 (status_of id c)).1 (Listed-lookup r id c e), refl)))
]

-- The backends that have a tunnel.
unfoldable pub count_tunnels : Registry → List Backend → ℕ
count_tunnels r [] = 0
count_tunnels r (b ∷ bs) = one_if_some (lookup b.id r) + count_tunnels r bs

-- The rows that follow from the tunnels themselves.
unfoldable pub expected_rows : (ℕ → Str) → List Route → Registry → List Backend → List Row
expected_rows since routes r [] = []
expected_rows since routes r (b ∷ bs) =
    row_of since b.id (end_users b.id routes []) (shown_tunnel r b.id)
    ∷ expected_rows since routes r bs

one_if_some-shown_tunnel :
    (r : Registry) (id : Str) → one_if_some (shown_tunnel r id) ≡ one_if_some (lookup id r)
unfolding shown_tunnel
one_if_some-shown_tunnel r id = elim (Option-cases (lookup id r)) [
  | inl e ↦ rw (e, shown_tunnel) refl
  | inr (c, e) ↦ rw (e, shown_tunnel) refl
]

rows-expected :
    (since : ℕ → Str) (routes : List Route) (version : Str) (started : ℕ) (r : Registry)
    (bs : List Backend)
    → Distinct r
    → (rows since routes (some (answer_status version started r)) bs
        ≡ expected_rows since routes r bs)
      × (count_online (some (answer_status version started r)) bs ≡ count_tunnels r bs)
unfolding rows expected_rows count_online count_tunnels
rows-expected since routes version started r [] d = (refl, refl)
rows-expected since routes version started r (b ∷ bs) d =
    let (tail, n) = rows-expected since routes version started r bs d in
    let here = live-shown_tunnel version started r b.id d in
    (
      rw (here, tail) refl,
      rw (here, n) (ap (λ k. k + count_tunnels r bs) (one_if_some-shown_tunnel r b.id)),
    )

-- While the hub runs, "list" shows each configured backend with the tunnel that the registry has for it:
-- online, with the agent's version, platform and address, exactly if there is one. The number of backends
-- that it counts as online is the number of those that have a tunnel. It is so after any run of agents'
-- connections and disconnections from the start of the hub. The end users that it shows for a backend
-- are those that some route to the backend leads to, each once.
pub run-rows :
    (resolve : TokenResolver) (version : Str) (es : List Event) (started : ℕ) (since : ℕ → Str)
    (routes : List Route) (bs : List Backend)
    → let r = (run resolve version es empty_hub).registry in
      (rows since routes (some (answer_status version started r)) bs
        ≡ expected_rows since routes r bs)
      × (count_online (some (answer_status version started r)) bs ≡ count_tunnels r bs)
      × ((id : Str)
          → Once (end_users id routes [])
            × ((u : Str) → contains (end_users id routes []) u ≡ leads id u routes))
unfolding contains
run-rows resolve version es started since routes bs =
    let (same, count) =
      rows-expected since routes version started (run resolve version es empty_hub).registry bs
        (run-Distinct resolve version es empty_hub tt) in
    (same, count, λ id. end_users-leads id routes [] tt)
