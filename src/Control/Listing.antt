-- ===== src/Control/Listing.antt =====
-- The list that `Registry.Status` of internal/control/registry.go gives.
use sshhub.Base.{◌≡◌, List, [], ◌∷◌, nat_eq, In, ◌⊎◌, inl, inr, ◌↔◌}
use sshhub.Text.{Str}
use sshhub.Text.Order.{InOrder, place_in-In, place_in-InOrder}
use sshhub.Control.Registry.{Registry, BackendStatus, status_of, status}

abbrev by_backend : BackendStatus → Str
by_backend s = s.backend

abbrev pub Sorted : List BackendStatus → Type 0
Sorted = InOrder by_backend

-- The entry of some tunnel.
abbrev pub Listed : Registry → BackendStatus → Type 0
Listed [] s = ⊥
Listed ((id, c) ∷ r) s = (s ≡ status_of id c) ⊎ Listed r s

status-In : (r : Registry) (s : BackendStatus) → In s (status r) ↔ Listed r s
unfolding status
status-In [] s = (λ i. i, λ i. i)
status-In ((id, c) ∷ r) s = (
  λ i. elim ((place_in-In by_backend (status_of id c) s (status r)).0 i) [
    | inl e ↦ inl e
    | inr j ↦ inr ((status-In r s).0 j)
  ],
  λ l.
      (place_in-In by_backend (status_of id c) s (status r)).1
        (elim l [ inl e ↦ inl e | inr j ↦ inr ((status-In r s).1 j) ]),
)

order_of_status : (r : Registry) → Sorted (status r)
unfolding status
order_of_status [] = tt
order_of_status ((id, c) ∷ r) =
    place_in-InOrder by_backend (status_of id c) (status r) (order_of_status r)

-- `Status` lists the backends in the order of their ids, and lists exactly the tunnels of the registry,
-- each with what was recorded about it.
pub status-Sorted :
    (r : Registry) → Sorted (status r) × ((s : BackendStatus) → In s (status r) ↔ Listed r s)
status-Sorted r = (order_of_status r, status-In r)
