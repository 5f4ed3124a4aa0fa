-- ===== src/FastPath/Submit/Carried.antt =====
-- What a request in the ring carries of the call that made it.
use gpu_rotation_engine.Base.{
  ℕ, ◌≡◌, refl, subst, sym, min, arith, Copied, take-Copied, padded-Copied, leb, if◌then◌else◌, ◌-◌,
  take, replicate, ◌++◌,
}
use gpu_rotation_engine.FastPath.Submit.{
  FastPathRequest, Generic, Multisign, generic_request, multisign_request,
}

pub record CarriesGeneric (id : ℕ) (g : Generic) (now : ℕ) (r : FastPathRequest) : Type 0 where
  pub id_is : r.request_id ≡ id
  pub time_is : r.t_submit_us ≡ now
  pub input_is : Copied (min g.input_len 32) g.input r.input
  pub flags_are : r.flags ≡ g.flags
  pub key_slot_is : r.key_slot ≡ g.key_slot
  pub client_is : r.client_id ≡ g.client_id
  pub opcode_is : r.opcode ≡ g.opcode
  pub input_len_is : r.input_len ≡ g.input_len
  pub payload_offset_is : r.payload_offset ≡ g.payload_offset
  pub payload_len_is : r.payload_len ≡ g.payload_len

pub record CarriesMultisign (id : ℕ) (m : Multisign) (r : FastPathRequest) : Type 0 where
  pub id_is : r.request_id ≡ id
  pub no_time : r.t_submit_us ≡ 0
  pub input_is : Copied 32 m.input r.input
  pub flags_are : r.flags ≡ m.flags
  pub key_slot_is : r.key_slot ≡ m.key_slot
  pub client_is : r.client_id ≡ m.client_id
  pub signs : r.opcode ≡ 0
  pub input_len_is : r.input_len ≡ 32
  pub payload_offset_is : r.payload_offset ≡ m.payload_offset
  pub payload_len_is : r.payload_len ≡ m.payload_len

-- A call that was accepted, and the number it was given.
pub data Accepted : Type 0 where
  generic : ℕ → Generic → ℕ → Accepted
  multisign : ℕ → Multisign → Accepted

abbrev pub Carries : Accepted → FastPathRequest → Type 0
Carries (Accepted.generic id g now) r = CarriesGeneric id g now r
Carries (Accepted.multisign id m) r = CarriesMultisign id m r

pub generic_request-Carries :
    (g : Generic) (now id : ℕ) → Carries (Accepted.generic id g now) (generic_request g now id)
unfolding generic_request
generic_request-Carries g now id = record {
  id_is = refl;
  time_is = refl;
  input_is =
      let copy_len : min g.input_len 32 ≡ (if leb g.input_len 32 then g.input_len else 32) =
        ground arith in
      subst
        (λ n. Copied n g.input (
          take (if leb g.input_len 32 then g.input_len else 32) g.input
          ++ replicate (32 - (if leb g.input_len 32 then g.input_len else 32)) 0))
        (sym copy_len) (padded-Copied _ _ g.input);
  flags_are = refl;
  key_slot_is = refl;
  client_is = refl;
  opcode_is = refl;
  input_len_is = refl;
  payload_offset_is = refl;
  payload_len_is = refl;
}

pub multisign_request-Carries :
    (m : Multisign) (id : ℕ) → Carries (Accepted.multisign id m) (multisign_request m id)
unfolding multisign_request
multisign_request-Carries m id = record {
  id_is = refl;
  no_time = refl;
  input_is = take-Copied 32 m.input;
  flags_are = refl;
  key_slot_is = refl;
  client_is = refl;
  signs = refl;
  input_len_is = refl;
  payload_offset_is = refl;
  payload_len_is = refl;
}
