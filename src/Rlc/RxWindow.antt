-- ===== src/Rlc/RxWindow.antt =====
-- The receive window of src/protocol/rlc.c. A slot holds a chain of PDUs, the last inserted in front; no
-- function takes a PDU out again.
use uesim.Common.{
  ℕ, zero, suc, ◌+◌, ◌-◌, ◌%◌, ◌^◌, ◌≤◌, ◌<◌, ◌≡◌, ◌≢◌, ◌∙◌, sym, subst, refl, ap, arith, List, [],
  ◌∷◌, Bool, true, false, Option, none, some, ltb, ◌==◌, if◌then◌else◌, ◌&&◌, Bool-cases, inl, inr,
  length, get_or, set, replicate, get_or-set_self, get_or-set_ne, Status,
}
use native.Mathlib.Nat.{mod-lt, mod-eq_of_lt}
use uesim.Rlc.{Pdu}
use uesim.Rlc.TxWindow.{modulus, distance, is_outside, is_outside-cases, distance_narrow}

-- `rlc_am_rx_window_t`; a slot that is `NULL` is an empty chain.
pub record RxWindow : Type 0 where
  pub slots : List (List Pdu)
  pub window_size : ℕ
  pub vr_r : ℕ
  pub vr_mr : ℕ
  pub vr_x : ℕ
  pub vr_ms : ℕ
  pub vr_h : ℕ

-- `rlc_am_init_rx_window`, given what the allocation and the mutex answered.
unfoldable pub init_rx_window : Bool → Bool → ℕ → Status × Option RxWindow
init_rx_window allocated mutex window_size =
    if window_size == 0
    then (Status.invalid_param, none)
    else if allocated
    then if mutex
      then (
        Status.success,
        some (record {
          slots = replicate window_size [];
          window_size = window_size;
          vr_r = 0;
          vr_mr = window_size;
          vr_x = 0;
          vr_ms = 0;
          vr_h = 0;
        }),
      )
      else (Status.thread, none)
    else (Status.memory, none)

abbrev pub is_filled : List Pdu → Bool
is_filled [] = false
is_filled (pdu ∷ pdus) = true

-- `rlc_am_rx_window_get`: the chain that the pointer heads.
unfoldable pub rx_window_get : RxWindow → ℕ → List Pdu
rx_window_get win sn = get_or win.slots (sn % win.window_size) []

abbrev pub moved : RxWindow → ℕ → RxWindow
moved win sn_length = record win {
  vr_r = (win.vr_r + 1) % modulus sn_length;
  vr_mr = ((win.vr_r + 1) % modulus sn_length + win.window_size) % modulus sn_length;
}

-- The loop that advances VR(R), in at most `fuel` tests of its condition: `none` when it goes on.
unfoldable pub advance : ℕ → RxWindow → ℕ → Option RxWindow
advance zero win sn_length = none
advance (suc fuel) win sn_length =
    let rest = advance fuel (moved win sn_length) sn_length in
    if is_filled (rx_window_get win win.vr_r) then rest else some win

-- The window with the PDU in its slot and VR(H) brought up.
unfoldable pub rx_inserted : RxWindow → Pdu → ℕ → RxWindow
rx_inserted win pdu sn_length =
    let idx = pdu.sn % win.window_size in
    let diff = distance sn_length pdu.sn win.vr_h in
    record win {
      slots = set win.slots idx (pdu ∷ get_or win.slots idx []);
      vr_h =
          if ltb 0 diff && ltb diff (2 ^ 15) && ltb diff win.window_size then pdu.sn else win.vr_h;
    }

abbrev answered : Option RxWindow → Option (Status × RxWindow)
answered none = none
answered (some win) = some (Status.success, win)

-- `rlc_am_rx_window_insert`, given whether the lock was taken; `none` when its loop needs more than
-- `fuel` tests.
unfoldable pub rx_window_insert : ℕ → RxWindow → Pdu → ℕ → Bool → Option (Status × RxWindow)
rx_window_insert fuel win pdu sn_length locked =
    if locked
    then if is_outside (distance sn_length pdu.sn win.vr_r) win.window_size
      then some (Status.capacity, win)
      else answered (advance fuel (rx_inserted win pdu sn_length) sn_length)
    else some (Status.thread, win)

-- As many slots as the window's size, which is not 0.
unfoldable pub IsValid : RxWindow → Type 0
IsValid win = (1 ≤ win.window_size) × (length win.slots ≡ win.window_size)

filled : (chain : List Pdu) → chain ≢ [] → is_filled chain ≡ true
filled [] some_pdu = absurd (some_pdu refl)
filled (p ∷ ps) some_pdu = refl

-- With a PDU in every slot the loop goes on for ever.
advance_full :
    (fuel : ℕ) (win : RxWindow) (sn_length : ℕ)
    → 1 ≤ win.window_size
    → ((i : ℕ) → i < win.window_size → is_filled (get_or win.slots i []) ≡ true)
    → advance fuel win sn_length ≡ none
unfolding advance rx_window_get
advance_full zero win sn_length size full = refl
advance_full (suc fuel) win sn_length size full =
    let here = full (win.vr_r % win.window_size) (mod-lt win.vr_r size) in
    rw here (advance_full fuel (moved win sn_length) sn_length size full)

-- An insert, under the lock, of a 12-bit number into a valid window of at most 4096 slots, where the
-- number is within the window and every slot but its own is filled, does not return: its loop is still
-- running after any number of tests.
pub rx_window_insert_stuck :
    (win : RxWindow) (pdu : Pdu)
    → IsValid win
    → pdu.sn < 2 ^ 12
    → win.vr_r < 2 ^ 12
    → (pdu.sn + 2 ^ 12 - win.vr_r) % 2 ^ 12 < win.window_size
    → win.window_size ≤ 2 ^ 12
    → ((i : ℕ) → i < win.window_size → i ≢ pdu.sn % win.window_size → get_or win.slots i [] ≢ [])
    → (fuel : ℕ) → rx_window_insert fuel win pdu 12 true ≡ none
unfolding IsValid rx_window_insert rx_inserted
rx_window_insert_stuck win pdu (some_slots, size) sn_low vr_r_low near bound others fuel =
    let close = distance_narrow pdu.sn win.vr_r sn_low vr_r_low in
    elim (is_outside-cases (distance 12 pdu.sn win.vr_r) win.window_size (omega (arith, close))) [
      | inl (far, out) ↦ absurd (omega (arith, close))
      | inr (fits, inside) ↦
          simp (rx_window_insert, inside)
            (ap answered (advance_full fuel (rx_inserted win pdu 12) 12 some_slots every))
    ]
  where
    idx : ℕ
    idx = pdu.sn % win.window_size

    every :
        (i : ℕ)
        → i < win.window_size
        → is_filled (get_or (set win.slots idx (pdu ∷ get_or win.slots idx [])) i []) ≡ true
    every i low = elim (Bool-cases (i == idx)) [
      | inl same ↦
          let e : idx ≡ i = ground (arith, same) in
          subst
            (λ j.
              is_filled (get_or (set win.slots idx (pdu ∷ get_or win.slots idx [])) j []) ≡ true)
            e
            (ap is_filled (
              get_or-set_self win.slots idx (pdu ∷ get_or win.slots idx []) []
                (rw size (mod-lt pdu.sn some_slots))))
      | inr apart ↦
          let other : i ≢ idx = ground (arith, apart) in
          ap is_filled
            (get_or-set_ne win.slots idx i (pdu ∷ get_or win.slots idx []) [] (λ e. other (sym e)))
          ∙ filled (get_or win.slots i []) (others i low other)
    ]

-- Where the `d` numbers from VR(R) on have a PDU in their slots, the next has none, and they all lie below
-- the modulus, `d + 1` tests or more are enough, and VR(R) ends at that first gap; the slots stay as they are.
advance-gap :
    (win : RxWindow) (sn_length d more : ℕ)
    → win.vr_r + d < modulus sn_length
    → ((k : ℕ) → k < d → is_filled (rx_window_get win (win.vr_r + k)) ≡ true)
    → rx_window_get win (win.vr_r + d) ≡ []
    → (win' : RxWindow) × (advance (suc (d + more)) win sn_length ≡ some win')
      × (win'.vr_r ≡ win.vr_r + d)
      × (win'.slots ≡ win.slots)
unfolding advance rx_window_get
advance-gap win sn_length zero more inside run gap =
    let here : win.vr_r + 0 ≡ win.vr_r = omega arith in
    let empty : get_or win.slots (win.vr_r % win.window_size) [] ≡ [] = rw here at gap in
    (win, rw empty refl, sym here, refl)
advance-gap win sn_length (suc d) more inside run gap =
    let here : win.vr_r + 0 ≡ win.vr_r = omega arith in
    let count : suc d + more ≡ suc (d + more) = omega arith in
    let next : (win.vr_r + 1) % modulus sn_length ≡ win.vr_r + 1 = mod-eq_of_lt (omega arith) in
    let first : is_filled (get_or win.slots (win.vr_r % win.window_size) []) ≡ true =
      rw here at (run 0 (omega arith)) in
    let shift : (k : ℕ) → (win.vr_r + 1) % modulus sn_length + k ≡ win.vr_r + suc k =
      λ k. omega (arith, next) in
    let (win', e, at, same) =
      advance-gap (moved win sn_length) sn_length d more (omega (arith, next))
        (λ k low.
          subst (λ n. is_filled (get_or win.slots (n % win.window_size) []) ≡ true) (sym (shift k))
            (run (suc k) (omega arith)))
        (subst (λ n. get_or win.slots (n % win.window_size) [] ≡ []) (sym (shift d)) gap) in
    (win', rw (count, first) e, at ∙ shift d, same)
