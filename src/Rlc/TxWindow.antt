-- ===== src/Rlc/TxWindow.antt =====
-- The transmit window of src/protocol/rlc.c. A slot holds a chain of PDUs, the last inserted in front.
use uesim.Common.{
  ℕ, ◌+◌, ◌-◌, ◌%◌, ◌^◌, ◌≤◌, ◌<◌, ◌≡◌, ◌≢◌, sym, refl, arith, List, [], ◌∷◌, Bool, true, false,
  Option, none, some, ltb, leb, leb→le, leb→lt, lt→ltb, le→ltb, ◌==◌, if◌then◌else◌, ◌&&◌,
  Bool-cases, ◌⊎◌, inl, inr, length, get_or, set, replicate, get_or-set_self, get_or-set_ne, Status,
}
use native.Mathlib.Nat.{mod-lt}
use uesim.Rlc.{Pdu}

-- `rlc_am_tx_window_t`; a slot that is `NULL` is an empty chain.
pub record TxWindow : Type 0 where
  pub slots : List (List Pdu)
  pub window_size : ℕ
  pub vt_a : ℕ
  pub vt_ms : ℕ
  pub vt_s : ℕ

-- `rlc_am_init_tx_window`, given what the allocation and the mutex answered.
unfoldable pub init_tx_window : Bool → Bool → ℕ → Status × Option TxWindow
init_tx_window allocated mutex window_size =
    if window_size == 0
    then (Status.invalid_param, none)
    else if allocated
    then if mutex
      then (
        Status.success,
        some (record {
          slots = replicate window_size [];
          window_size = window_size;
          vt_a = 0;
          vt_ms = window_size;
          vt_s = 0;
        }),
      )
      else (Status.thread, none)
    else (Status.memory, none)

-- `sn_mask`, as the number of sequence numbers that it leaves: 0xFFF for 12 bits, and 0x3FFFF cut to the
-- 16 bits of its variable for every other length.
unfoldable pub modulus : ℕ → ℕ
modulus sn_length = if sn_length == 12 then 2 ^ 12 else 2 ^ 16

-- `(a - b) & sn_mask`
unfoldable pub distance : ℕ → ℕ → ℕ → ℕ
distance sn_length a b = (a + 2 ^ 16 - b) % modulus sn_length

-- `diff >= window_size`, where `diff` is an `int16_t`: a difference of 2^15 or more is negative in it.
unfoldable pub is_outside : ℕ → ℕ → Bool
is_outside diff window_size = ltb diff (2 ^ 15) && leb window_size diff

-- `rlc_am_tx_window_insert`, given whether the lock was taken.
unfoldable pub tx_window_insert : TxWindow → Pdu → ℕ → Bool → Status × TxWindow
tx_window_insert win pdu sn_length locked =
    let idx = pdu.sn % win.window_size in
    if locked
    then if is_outside (distance sn_length pdu.sn win.vt_a) win.window_size
      then (Status.capacity, win)
      else (
        Status.success,
        record win {
          slots = set win.slots idx (pdu ∷ get_or win.slots idx []);
          vt_s = (pdu.sn + 1) % modulus sn_length;
        },
      )
    else (Status.thread, win)

-- `rlc_am_tx_window_get`: the chain that the pointer heads.
unfoldable pub tx_window_get : TxWindow → ℕ → List Pdu
tx_window_get win sn = get_or win.slots (sn % win.window_size) []

-- As many slots as the window's size, which is not 0, and numbers of 16 bits.
unfoldable pub IsValid : TxWindow → Type 0
IsValid win = (1 ≤ win.window_size) × (length win.slots ≡ win.window_size) × (win.vt_a < 2 ^ 16)

-- Below 2^15 the signed comparison is the one meant.
pub is_outside-cases :
    (diff window_size : ℕ)
    → diff < 2 ^ 15
    → ((window_size ≤ diff) × (is_outside diff window_size ≡ true))
      ⊎ ((diff < window_size) × (is_outside diff window_size ≡ false))
unfolding is_outside
is_outside-cases diff window_size small = elim (Bool-cases (leb window_size diff)) [
  | inl out ↦ inl (leb→le window_size diff out, rw (lt→ltb diff (2 ^ 15) small, out) refl)
  | inr fits ↦ inr (leb→lt window_size diff fits, rw (lt→ltb diff (2 ^ 15) small, fits) refl)
]

pub distance_narrow :
    (a b : ℕ) → a < 2 ^ 12 → b < 2 ^ 12 → distance 12 a b ≡ (a + 2 ^ 12 - b) % 2 ^ 12
unfolding distance modulus
distance_narrow a b a_low b_low = omega arith

pub distance_wide :
    (sn_length a b : ℕ) → ¬ (sn_length ≡ 12) → distance sn_length a b ≡ (a + 2 ^ 16 - b) % 2 ^ 16
unfolding distance modulus
distance_wide sn_length a b long = elim (Bool-cases (sn_length == 12)) [
  | inl twelve ↦ absurd (long (ground (arith, twelve)))
  | inr other ↦ rw (modulus, other) refl
]

-- In a valid window, with 12-bit numbers and the lock taken, an insert is refused, and changes nothing,
-- exactly when the number lies the window's size or more ahead of VT(A), modulo 4096. Else the PDU is
-- at the head of its slot's chain in front of what was there, every number that belongs to another slot
-- finds what it found, and VT(S) is the next number.
tx_window_insert-get :
    (win : TxWindow) (pdu : Pdu) (other : ℕ)
    → IsValid win
    → pdu.sn < 2 ^ 12
    → win.vt_a < 2 ^ 12
    → other % win.window_size ≢ pdu.sn % win.window_size
    → ((win.window_size ≤ (pdu.sn + 2 ^ 12 - win.vt_a) % 2 ^ 12)
        × (tx_window_insert win pdu 12 true ≡ (Status.capacity, win)))
      ⊎ (((pdu.sn + 2 ^ 12 - win.vt_a) % 2 ^ 12 < win.window_size)
          × ((tx_window_insert win pdu 12 true).0 ≡ Status.success)
          × (tx_window_get (tx_window_insert win pdu 12 true).1 pdu.sn
              ≡ pdu ∷ tx_window_get win pdu.sn)
          × (tx_window_get (tx_window_insert win pdu 12 true).1 other ≡ tx_window_get win other)
          × ((tx_window_insert win pdu 12 true).1.vt_s ≡ (pdu.sn + 1) % 2 ^ 12))
unfolding IsValid tx_window_insert tx_window_get modulus
tx_window_insert-get win pdu other (some_slots, size, narrow) sn_low vt_a_low apart =
    let idx = pdu.sn % win.window_size in
    let near = distance_narrow pdu.sn win.vt_a sn_low vt_a_low in
    let inside : idx < length win.slots = rw size (mod-lt pdu.sn some_slots) in
    elim (is_outside-cases (distance 12 pdu.sn win.vt_a) win.window_size (omega (arith, near))) [
      | inl (far, out) ↦ inl (rw near at far, rw (tx_window_insert, out) refl)
      | inr (close, fits) ↦
          simp (tx_window_insert, fits)
            (inr (
              rw near at close,
              refl,
              get_or-set_self win.slots idx (pdu ∷ get_or win.slots idx []) [] inside,
              get_or-set_ne win.slots idx (other % win.window_size) (pdu ∷ get_or win.slots idx [])
                  [] (λ e. apart (sym e)),
              refl,
            ))
    ]

-- With a length other than 12, whose mask is cut to 16 bits, and the lock taken, a 16-bit number that lies
-- 2^15 or more ahead of VT(A) is accepted by every window, however small.
pub tx_window_insert_far :
    (win : TxWindow) (pdu : Pdu) (sn_length : ℕ)
    → ¬ (sn_length ≡ 12)
    → pdu.sn < 2 ^ 16
    → win.vt_a < 2 ^ 16
    → 2 ^ 15 ≤ (pdu.sn + 2 ^ 16 - win.vt_a) % 2 ^ 16
    → (tx_window_insert win pdu sn_length true).0 ≡ Status.success
unfolding tx_window_insert is_outside
tx_window_insert_far win pdu sn_length long sn_low vt_a_low far =
    let wide = distance_wide sn_length pdu.sn win.vt_a long in
    let negative : ltb (distance sn_length pdu.sn win.vt_a) (2 ^ 15) ≡ false =
      le→ltb _ _ (omega (arith, wide)) in
    simp (tx_window_insert, is_outside, negative) refl
