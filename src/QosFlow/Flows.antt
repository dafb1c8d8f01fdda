-- ===== src/QosFlow/Flows.antt =====
-- What a run of creates, releases and activations does to the flows of src/nas/qos_flow.c.
use uesim.Common.{
  ℕ, ◌+◌, ◌%◌, ◌^◌, ◌≤◌, ◌<◌, ◌≡◌, refl, arith, List, [], ◌∷◌, ◌++◌, Bool, true, false, Option,
  none, some, leb, leb→lt, lt→leb, ◌==◌, if◌then◌else◌, Bool-cases, Option-cases, ◌⊎◌, inl, inr,
  length, length-append, Status, find_first, remove_first, update_first, or_else,
  find_first-append_one, length-update_first, length-remove_first, find_first-remove_other,
  find_first-update_self, find_first-update_other,
}
use uesim.QosFlow.{
  Flow, FlowState, Arp, BitRate, Manager, new_flow, create, has_qfi, find_by_qfi, release,
  set_active, activate,
}

-- The operations that change a manager's flows.
pub data Request : Type 0 where
  create_flow : ℕ → Option Arp → Option BitRate → Option BitRate → ℕ → Bool → Request
  release_flow activate_flow : ℕ → Request

-- One call, its status dropped.
unfoldable pub serve : Manager → Request → Manager
serve m (Request.create_flow five_qi arp gbr mbr now mutex) =
    (create m five_qi arp gbr mbr now mutex).1
serve m (Request.release_flow qfi) = (release m qfi).1
serve m (Request.activate_flow qfi) = (activate m qfi).1

unfoldable pub serve_all : Manager → List Request → Manager
serve_all m [] = m
serve_all m (r ∷ rs) = serve_all (serve m r) rs

-- Every flow has an identifier between 1 and 8.
unfoldable pub AreNumbered : List Flow → Type 0
AreNumbered [] = Unit {0}
AreNumbered (f ∷ fs) = (1 ≤ f.qfi) × (f.qfi ≤ 8) × AreNumbered fs

-- The array's bound, the identifiers' range, and that the manager knows a default once it has a flow.
unfoldable pub IsValid : Manager → Type 0
IsValid m =
    (length m.flows ≤ 8) × AreNumbered m.flows × ((length m.flows ≡ 0) ⊎ (1 ≤ m.default_qfi))

AreNumbered-append_one :
    (fs : List Flow) (f : Flow)
    → AreNumbered fs
    → 1 ≤ f.qfi
    → f.qfi ≤ 8
    → AreNumbered (fs ++ f ∷ [])
unfolding AreNumbered
AreNumbered-append_one [] f ok low high = (low, high, tt)
AreNumbered-append_one (g ∷ fs) f (g_low, g_high, ok) low high =
    (g_low, g_high, AreNumbered-append_one fs f ok low high)

AreNumbered-remove_first :
    (p : Flow → Bool) (fs : List Flow) → AreNumbered fs → AreNumbered (remove_first p fs)
unfolding AreNumbered remove_first
AreNumbered-remove_first p [] ok = ok
AreNumbered-remove_first p (g ∷ fs) (g_low, g_high, ok) = elim (Bool-cases (p g)) [
  | inl hit ↦ rw hit ok
  | inr miss ↦ rw miss (g_low, g_high, AreNumbered-remove_first p fs ok)
]

AreNumbered-update_first :
    (p : Flow → Bool) (fs : List Flow) → AreNumbered fs → AreNumbered (update_first p set_active fs)
unfolding AreNumbered update_first
AreNumbered-update_first p [] ok = ok
AreNumbered-update_first p (g ∷ fs) (g_low, g_high, ok) = elim (Bool-cases (p g)) [
  | inl hit ↦ rw hit (g_low, g_high, ok)
  | inr miss ↦ rw miss (g_low, g_high, AreNumbered-update_first p fs ok)
]

-- A created flow goes to the end, with the next number; the default is set by the first.
create_ok :
    (m : Manager) (five_qi : ℕ) (arp : Option Arp) (gbr mbr : Option BitRate) (now : ℕ)
    → length m.flows < 8
    → create m five_qi arp gbr mbr now true ≡ (
        let flow = new_flow (length m.flows) five_qi arp gbr mbr now in
        (
          Status.success,
          record m {
            flows = m.flows ++ flow ∷ [];
            default_qfi = if m.default_qfi == 0 then flow.qfi else m.default_qfi;
          },
          some flow,
        ))
unfolding create
create_ok m five_qi arp gbr mbr now room = rw (lt→leb 8 (length m.flows) room) refl

default_qfi_low : (d q : ℕ) → 1 ≤ q → 1 ≤ (if d == 0 then q else d)
default_qfi_low d q low = ground arith

serve-IsValid-create :
    (m : Manager) (five_qi : ℕ) (arp : Option Arp) (gbr mbr : Option BitRate) (now : ℕ)
    (mutex : Bool)
    → IsValid m
    → IsValid (serve m (Request.create_flow five_qi arp gbr mbr now mutex))
unfolding IsValid serve create new_flow
serve-IsValid-create m five_qi arp gbr mbr now mutex (bound, numbered, default) =
    elim (Bool-cases (leb 8 (length m.flows))) [
      | inl full ↦ rw (full, serve, create) (bound, numbered, default)
      | inr room ↦ elim (Bool-cases mutex) [
        | inr failed ↦ rw (room, failed, serve, create) (bound, numbered, default)
        | inl made ↦
            let short : length m.flows < 8 = leb→lt 8 (length m.flows) room in
            rw (made, serve, create_ok m five_qi arp gbr mbr now short)
              (
                omega (arith, length-append m.flows),
                AreNumbered-append_one m.flows (new_flow (length m.flows) five_qi arp gbr mbr now)
                    numbered (omega arith) (omega arith),
                inr (default_qfi_low m.default_qfi ((length m.flows + 1) % 2 ^ 8) (omega arith)),
              )
      ]
    ]

serve-IsValid-release :
    (m : Manager) (qfi : ℕ) → IsValid m → IsValid (serve m (Request.release_flow qfi))
unfolding IsValid serve release find_by_qfi
serve-IsValid-release m qfi (bound, numbered, default) =
    elim (Option-cases (find_first (has_qfi qfi) m.flows)) [
      | inl missing ↦ rw (missing, serve, release) (bound, numbered, default)
      | inr (f, found) ↦
          let shorter = length-remove_first (has_qfi qfi) m.flows found in
          rw (found, serve, release)
            (
              omega (arith, shorter),
              AreNumbered-remove_first (has_qfi qfi) m.flows numbered,
              elim default [ inl none_there ↦ absurd (omega (arith, shorter)) | inr d ↦ inr d ],
            )
    ]

serve-IsValid-activate :
    (m : Manager) (qfi : ℕ) → IsValid m → IsValid (serve m (Request.activate_flow qfi))
unfolding IsValid serve activate find_by_qfi
serve-IsValid-activate m qfi (bound, numbered, default) =
    elim (Option-cases (find_first (has_qfi qfi) m.flows)) [
      | inl missing ↦ rw (missing, serve, activate) (bound, numbered, default)
      | inr (f, found) ↦
          let same = length-update_first (has_qfi qfi) set_active m.flows in
          rw (found, serve, activate)
            (
              rw same bound,
              AreNumbered-update_first (has_qfi qfi) m.flows numbered,
              rw same default,
            )
    ]

serve-IsValid : (m : Manager) (r : Request) → IsValid m → IsValid (serve m r)
serve-IsValid m (Request.create_flow five_qi arp gbr mbr now mutex) ok =
    serve-IsValid-create m five_qi arp gbr mbr now mutex ok
serve-IsValid m (Request.release_flow qfi) ok = serve-IsValid-release m qfi ok
serve-IsValid m (Request.activate_flow qfi) ok = serve-IsValid-activate m qfi ok

-- Whatever is asked of a valid manager, and however often: it never holds more than eight flows, every
-- flow's identifier lies between 1 and 8, and while it holds a flow its default is a nonzero identifier.
pub serve_all-IsValid : (m : Manager) (rs : List Request) → IsValid m → IsValid (serve_all m rs)
unfolding serve_all
serve_all-IsValid m [] ok = ok
serve_all-IsValid m (r ∷ rs) ok = serve_all-IsValid (serve m r) rs (serve-IsValid m r ok)

-- After a create that succeeds, a search gives what it gave before, and the new flow only where no
-- older one has the identifier asked for.
create-find_by_qfi :
    (m : Manager) (five_qi : ℕ) (arp : Option Arp) (gbr mbr : Option BitRate) (now qfi : ℕ)
    → length m.flows < 8
    → find_by_qfi (create m five_qi arp gbr mbr now true).1 qfi ≡ (
        let flow = new_flow (length m.flows) five_qi arp gbr mbr now in
        or_else (find_by_qfi m qfi) (if length m.flows + 1 == qfi then some flow else none))
unfolding find_by_qfi new_flow
create-find_by_qfi m five_qi arp gbr mbr now qfi room =
    let narrow : (length m.flows + 1) % 2 ^ 8 ≡ length m.flows + 1 = omega arith in
    rw
      (
        create_ok m five_qi arp gbr mbr now room,
        find_first-append_one (has_qfi qfi) m.flows
            (new_flow (length m.flows) five_qi arp gbr mbr now),
      )
      (rw narrow refl)

-- A release gives `not_found` and changes nothing where no flow has the identifier. Else it takes one
-- flow away, and a search for any other identifier gives what it gave before.
release-find_by_qfi :
    (m : Manager) (qfi other : ℕ)
    → ¬ (other ≡ qfi)
    → ((find_by_qfi m qfi ≡ none) × (release m qfi ≡ (Status.not_found, m)))
      ⊎ (((release m qfi).0 ≡ Status.success)
          × (length (release m qfi).1.flows + 1 ≡ length m.flows)
          × (find_by_qfi (release m qfi).1 other ≡ find_by_qfi m other))
unfolding release find_by_qfi
release-find_by_qfi m qfi other apart = elim (Option-cases (find_first (has_qfi qfi) m.flows)) [
  | inl missing ↦ inl (missing, rw (missing, release) refl)
  | inr (f, found) ↦
      rw (found, release)
        (inr (
          refl,
          length-remove_first (has_qfi qfi) m.flows found,
          find_first-remove_other (has_qfi qfi) (has_qfi other) m.flows
              (λ x same. apart_lem x.qfi same),
        ))
]
  where
    apart_lem : (q : ℕ) → (q == qfi) ≡ true → (q == other) ≡ false
    apart_lem q same = ground (arith, apart)

-- An activation gives `not_found` and changes nothing where no flow has the identifier. Else the flow
-- found under it is the one found before, now active, and every other search gives what it gave.
activate-find_by_qfi :
    (m : Manager) (qfi other : ℕ)
    → ¬ (other ≡ qfi)
    → (activate m qfi ≡ (Status.not_found, m))
      ⊎ ((f : Flow) × (find_by_qfi m qfi ≡ some f)
          × ((activate m qfi).0 ≡ Status.success)
          × (find_by_qfi (activate m qfi).1 qfi ≡ some (record f { state = FlowState.active }))
          × (find_by_qfi (activate m qfi).1 other ≡ find_by_qfi m other))
unfolding activate find_by_qfi
activate-find_by_qfi m qfi other apart = elim (Option-cases (find_first (has_qfi qfi) m.flows)) [
  | inl missing ↦ inl (rw (missing, activate) refl)
  | inr (f, found) ↦
      rw (found, activate)
        (inr (
          f,
          refl,
          refl,
          find_first-update_self (has_qfi qfi) set_active m.flows (λ x. refl) found,
          find_first-update_other (has_qfi qfi) (has_qfi other) set_active m.flows
              (λ x same. apart_lem x.qfi same) (λ x. refl),
        ))
]
  where
    apart_lem : (q : ℕ) → (q == qfi) ≡ true → (q == other) ≡ false
    apart_lem q same = ground (arith, apart)
