-- ===== src/Per/Measure.antt =====
-- The measurement report and the UE capability enquiry of src/protocol/asn1_per.c.
use uesim.Common.{
  ℕ, zero, suc, ◌+◌, ◌-◌, ◌*◌, ◌/◌, ◌%◌, ◌^◌, ◌≤◌, ◌<◌, ◌≡◌, refl, ap, arith, List, [], ◌∷◌, map,
  length, take, take_all, Status, ltb, ltb→lt, ltb→le, le→ltb, if◌then◌else◌, Bool-cases, inl, inr,
}
use uesim.Per.{Buffer, Read, done, refused, overrun, clear, decode_bits}
use uesim.Per.Fields.{Field, put, put_all, total, AreNarrow, Decodes, wire, put_all-round_trip}
use uesim.Per.Decode.{decode_bits-value, decode_bits_past}
use uesim.Per.Decoder.{Decoder, ◌>>=◌, ◌>>◌, result, take_bits, decode_message}

-- `rrc_measurement_report_t`. The two levels are `int32_t`, held as their bit patterns.
pub record MeasurementReport : Type 0 where
  pub meas_id : ℕ
  pub rsrp : ℕ
  pub rsrq : ℕ
  pub pci : ℕ
  pub cell_id : ℕ

-- `rrc_encode_measurement_report`, and call for call `rrc_encode_handover_prep`.
unfoldable pub encode_measurement_report : Buffer → MeasurementReport → Status × Buffer
encode_measurement_report buf msg =
    let cleared = clear buf in
    let buf1 = put cleared msg.meas_id 6 in
    let buf2 = put buf1 0 2 in
    let buf3 = put buf2 ((msg.rsrp + 140) % 2 ^ 32) 8 in
    let buf4 = put buf3 ((msg.rsrq + 20) % 2 ^ 32) 7 in
    let buf5 = put buf4 msg.pci 16 in (Status.success, put buf5 msg.cell_id 28)

-- `rrc_decode_measurement_report`
unfoldable pub decode_measurement_report : List ℕ → Read MeasurementReport
decode_measurement_report = decode_message 10 (do
  meas_id ← take_bits 6
  take_bits 2
  rsrp ← take_bits 8
  rsrq ← take_bits 7
  pci ← take_bits 16
  cell_id ← take_bits 28
  result (record {
    meas_id = meas_id;
    rsrp = (rsrp + 2 ^ 32 - 140) % 2 ^ 32;
    rsrq = (rsrq + 2 ^ 32 - 20) % 2 ^ 32;
    pci = pci;
    cell_id = cell_id;
  }))

abbrev measurement_fields : MeasurementReport → List Field
measurement_fields msg =
    (msg.meas_id, 6)
    ∷ (0, 2)
    ∷ ((msg.rsrp + 140) % 2 ^ 32, 8)
    ∷ ((msg.rsrq + 20) % 2 ^ 32, 7)
    ∷ (msg.pci, 16)
    ∷ (msg.cell_id, 28)
    ∷ []

-- Every measurement report that the encoder writes into a buffer of at least 9 bytes is 9 bytes long, and
-- the decoder refuses it as an invalid parameter.
pub measurement_report-refused :
    (buf : Buffer) (msg : MeasurementReport)
    → 9 ≤ buf.capacity
    → (length (wire (encode_measurement_report buf msg).1) ≡ 9)
      × (decode_measurement_report (wire (encode_measurement_report buf msg).1)
          ≡ refused Status.invalid_param)
unfolding encode_measurement_report decode_measurement_report
measurement_report-refused buf msg room = (trip.1, rw trip.1)
  where
    trip :
        Decodes (wire (put_all (clear buf) (measurement_fields msg))) 0 (measurement_fields msg)
        × (length (wire (put_all (clear buf) (measurement_fields msg))) ≡ 9)
    trip = put_all-round_trip buf (measurement_fields msg) (omega arith) (omega arith)

-- `rrc_ue_cap_enquiry_t`; `rat_types` is an array of 8.
pub record CapEnquiry : Type 0 where
  pub enquiry_id : ℕ
  pub rat_types : List ℕ
  pub num_rat_types : ℕ

unfoldable pub put_rats : Buffer → List ℕ → Buffer
put_rats buf [] = buf
put_rats buf (rat ∷ rats) = put_rats (put buf rat 4) rats

-- `rrc_encode_ue_cap_enquiry`; its loop runs while `i < num_rat_types && i < 8`.
unfoldable pub encode_ue_cap_enquiry : Buffer → CapEnquiry → Status × Buffer
encode_ue_cap_enquiry buf msg =
    let cleared = clear buf in
    let buf1 = put cleared msg.enquiry_id 4 in
    let buf2 = put buf1 (msg.num_rat_types % 2 ^ 32) 4 in
    (Status.success, put_rats buf2 (take msg.num_rat_types (take 8 msg.rat_types)))

-- The decoder's loop, with the rounds left.
unfoldable pub take_rats : ℕ → Decoder (List ℕ)
take_rats zero = result []
take_rats (suc n) = do rat ← take_bits 4; rats ← take_rats n; result (rat ∷ rats)

-- `rrc_decode_ue_cap_enquiry`. Of `rat_types` only the entries that are written are given.
unfoldable pub decode_ue_cap_enquiry : List ℕ → Read CapEnquiry
decode_ue_cap_enquiry = decode_message 2 (do
  eid ← take_bits 4
  num ← take_bits 4
  rats ← take_rats (if ltb num 8 then num else 8)
  result
      (record { enquiry_id = eid; rat_types = rats; num_rat_types = if ltb num 8 then num else 8 }))

abbrev rat_fields : List ℕ → List Field
rat_fields = map (λ rat. (rat, 4))

put_rats-fields : (buf : Buffer) (rats : List ℕ) → put_rats buf rats ≡ put_all buf (rat_fields rats)
unfolding put_rats
put_rats-fields buf [] = refl
put_rats-fields buf (rat ∷ rats) = put_rats-fields (put buf rat 4) rats

total-rats : (rats : List ℕ) → total (rat_fields rats) ≡ 4 * length rats
total-rats [] = refl
total-rats (rat ∷ rats) = omega (arith, total-rats rats)

rats-AreNarrow : (rats : List ℕ) → AreNarrow (rat_fields rats)
rats-AreNarrow [] = tt
rats-AreNarrow (rat ∷ rats) = (omega arith, rats-AreNarrow rats)

take_rats_lem :
    (bytes : List ℕ) (j : ℕ) (rats : List ℕ)
    → Decodes bytes j (rat_fields rats)
    → take_rats (length rats) bytes j ≡ done (map (λ rat. rat % 2 ^ 4) rats) (j + 4 * length rats)
unfolding take_rats
take_rats_lem bytes j [] d = ap (done []) (omega arith)
take_rats_lem bytes j (rat ∷ rats) d =
    let e : j + 4 + 4 * length rats ≡ j + 4 * length (rat ∷ rats) = omega arith in
    rw (d.0, take_rats, ◌>>=◌, take_rats_lem bytes (j + 4) rats d.1, e)

-- The number of entries, as it is sent and cut down by the decoder.
count_kept : (n : ℕ) → n ≤ 8 → (if ltb (n % 2 ^ 32 % 2 ^ 4) 8 then n % 2 ^ 32 % 2 ^ 4 else 8) ≡ n
count_kept n h = ground arith

abbrev enquiry_fields : ℕ → List ℕ → List Field
enquiry_fields eid rats = (eid, 4) ∷ (length rats % 2 ^ 32, 4) ∷ rat_fields rats

enquiry_sent :
    (buf : Buffer) (eid : ℕ) (rats : List ℕ)
    → length rats ≤ 8
    → (encode_ue_cap_enquiry buf
        (record { enquiry_id = eid; rat_types = rats; num_rat_types = length rats })).1
      ≡ put_all (clear buf) (enquiry_fields eid rats)
unfolding encode_ue_cap_enquiry
enquiry_sent buf eid rats few =
    rw (take_all 8 rats few, take_all (length rats) rats (omega arith)) (put_rats-fields _ rats)

enquiry_read :
    (bytes : List ℕ) (eid : ℕ) (rats : List ℕ)
    → 2 ≤ length bytes
    → length rats ≤ 8
    → Decodes bytes 0 (enquiry_fields eid rats)
    → decode_ue_cap_enquiry bytes
      ≡ done
          (record {
            enquiry_id = eid % 2 ^ 4;
            rat_types = map (λ rat. rat % 2 ^ 4) rats;
            num_rat_types = length rats;
          })
          (8 + 4 * length rats)
unfolding decode_ue_cap_enquiry
enquiry_read bytes eid rats long few d =
    rw
      (
        le→ltb (length bytes) 2 long,
        d.0,
        d.1.0,
        decode_ue_cap_enquiry,
        ◌>>=◌,
        count_kept (length rats) few,
        take_rats_lem bytes 8 rats d.1.1,
      )
      (rw (count_kept (length rats) few))

-- A capability enquiry of 1 to 8 entries, encoded into a buffer of at least 5 bytes and decoded from the
-- bytes sent, comes back with its id and entries cut to 4 bits.
ue_cap_enquiry-round_trip :
    (buf : Buffer) (enquiry_id : ℕ) (rats : List ℕ)
    → 5 ≤ buf.capacity
    → 0 < length rats
    → length rats ≤ 8
    → decode_ue_cap_enquiry (
        wire
          (encode_ue_cap_enquiry buf
            (record { enquiry_id = enquiry_id; rat_types = rats; num_rat_types = length rats })).1)
      ≡ done
          (record {
            enquiry_id = enquiry_id % 2 ^ 4;
            rat_types = map (λ rat. rat % 2 ^ 4) rats;
            num_rat_types = length rats;
          })
          (8 + 4 * length rats)
ue_cap_enquiry-round_trip buf eid rats room some_left few =
    rw (enquiry_sent buf eid rats few)
      (enquiry_read _ eid rats (omega (arith, trip.1, total-rats rats)) few trip.0)
  where
    trip :
        Decodes (wire (put_all (clear buf) (enquiry_fields eid rats))) 0 (enquiry_fields eid rats)
        × (length (wire (put_all (clear buf) (enquiry_fields eid rats)))
            ≡ (total (enquiry_fields eid rats) + 7) / 8)
    trip =
        put_all-round_trip buf (enquiry_fields eid rats)
          (omega arith, (omega arith, rats-AreNarrow rats)) (omega (arith, total-rats rats))

take_rats_past :
    (bytes : List ℕ) (j n : ℕ)
    → j ≤ 8 * length bytes
    → 8 * length bytes < j + 4 * n
    → take_rats n bytes j ≡ overrun
unfolding take_rats
take_rats_past bytes j zero inside over = absurd (omega arith)
take_rats_past bytes j (suc n) inside over = elim (Bool-cases (ltb (8 * length bytes) (j + 4))) [
  | inl now ↦
      rw (decode_bits_past bytes j 4 (omega arith) inside (ltb→lt _ _ now), take_rats, ◌>>=◌)
  | inr later ↦ rw (
    decode_bits-value bytes j 4 (omega arith) (ltb→le _ _ later),
    take_rats,
    ◌>>=◌,
    take_rats_past bytes (j + 4) n (ltb→le _ _ later) (omega arith),
  )
]

-- A capability enquiry of at least 2 bytes, whose count is at most 8 and promises more entries than its
-- bytes hold, is read past its end.
pub ue_cap_enquiry_overrun :
    (bytes : List ℕ) (num : ℕ)
    → 2 ≤ length bytes
    → decode_bits bytes 4 4 ≡ done num 8
    → num ≤ 8
    → 8 * length bytes < 8 + 4 * num
    → decode_ue_cap_enquiry bytes ≡ overrun
unfolding decode_ue_cap_enquiry
ue_cap_enquiry_overrun bytes num long count few over =
    let kept : (if ltb num 8 then num else 8) ≡ num = ground arith in
    rw (
      le→ltb (length bytes) 2 long,
      decode_bits-value bytes 0 4 (omega arith) (omega arith),
      count,
      decode_ue_cap_enquiry,
      ◌>>=◌,
      kept,
      take_rats_past bytes 8 num (omega arith) over,
    )
