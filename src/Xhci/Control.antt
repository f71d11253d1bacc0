-- ===== src/Xhci/Control.antt =====
-- Control transfers, as the controller reads them off the ring of the default endpoint.
use field_os.Prelude.{ℕ, ◌+◌, ◌*◌, ◌/◌, ◌%◌, ◌^◌, ◌<◌, ◌≡◌, refl, arith, bit_or}
use field_os.Prelude.Bits.{bit_or_add, bit_or_below}
use field_os.Xhci.{Trb, Request, setup_d0}

-- The request and its length in a Setup block, field by field as the USB specification lays them
-- out.
abbrev pub request_of : Trb → Request
request_of t = record {
  bm_request_type = t.d0 % 2 ^ 8;
  b_request = t.d0 / 2 ^ 8 % 2 ^ 8;
  w_value = t.d0 / 2 ^ 16;
  w_index = t.d1 % 2 ^ 16;
}

abbrev pub length_of : Trb → ℕ
length_of t = t.d1 / 2 ^ 16

abbrev pub flag : ℕ → Trb → ℕ
flag k t = t.d3 / 2 ^ k % 2

abbrev pub type_of : Trb → ℕ
type_of t = t.d3 / 2 ^ 10 % 2 ^ 6

-- A request whose fields are bytes and words.
pub record IsRequest (r : Request) : Type 0 where
  pub bm_request_type : r.bm_request_type < 2 ^ 8
  pub b_request : r.b_request < 2 ^ 8
  pub w_value : r.w_value < 2 ^ 16
  pub w_index : r.w_index < 2 ^ 16

setup_d0_lem :
    (r : Request)
    → IsRequest r
    → setup_d0 r ≡ r.bm_request_type + r.b_request * 2 ^ 8 + r.w_value * 2 ^ 16
setup_d0_lem r is =
    let low = bit_or_below 8 r.b_request r.bm_request_type is.bm_request_type in
    let all =
      bit_or_below 16 r.w_value (r.b_request * 2 ^ 8 + r.bm_request_type)
        (omega (arith, is.bm_request_type, is.b_request)) in
    rw (low, all) (omega arith)

-- The immediate Setup block for the request `r`: bits 16 and 17 give the kind of the data stage.
pub record IsSetup (t : Trb) (r : Request) (len kind cycle : ℕ) : Type 0 where
  pub request : request_of t ≡ r
  pub asked : length_of t ≡ len
  pub eight : t.d2 ≡ 8
  pub kind_at : t.d3 / 2 ^ 16 ≡ kind
  pub type : type_of t ≡ 2
  pub immediate : flag 6 t ≡ 1
  pub bit : t.d3 % 2 ≡ cycle

pub record IsDataIn (t : Trb) (buf_phys len cycle : ℕ) : Type 0 where
  pub buffer : t.d0 + t.d1 * 2 ^ 32 ≡ buf_phys
  pub room : t.d2 ≡ len
  pub type : type_of t ≡ 3
  pub is_in : flag 16 t ≡ 1
  pub bit : t.d3 % 2 ≡ cycle

-- The Status block, which asks for an event.
pub record IsStatus (t : Trb) (is_in cycle : ℕ) : Type 0 where
  pub type : type_of t ≡ 4
  pub direction : flag 16 t ≡ is_in
  pub on_completion : flag 5 t ≡ 1
  pub bit : t.d3 % 2 ≡ cycle

-- The cycle bit joins flags that leave it free.
with_cycle : (w cycle : ℕ) → w % 2 ≡ 0 → cycle < 2 → bit_or w cycle ≡ w + cycle
with_cycle w cycle even bit = bit_or_add 1 (w / 2) w cycle (omega arith) bit

module _ (r : Request) (is : IsRequest r) (cycle : ℕ) (bit : cycle < 2) where
  pub setup-IsSetup :
      (len flags kind : ℕ)
      → len < 2 ^ 16
      → flags ≡ kind * 2 ^ 16 + 0x840
      → IsSetup
          (record {
            d0 = setup_d0 r;
            d1 = bit_or r.w_index (len * 2 ^ 16);
            d2 = 8;
            d3 = bit_or flags cycle;
          })
          r
          len
          kind
          cycle
  setup-IsSetup len flags kind small e =
      let d0 = setup_d0_lem r is in
      let d1 = bit_or_below 16 len r.w_index is.w_index in
      let d3 = with_cycle flags cycle (omega (arith, e)) bit in
      record {
        request = ground (arith, d0, d1, is.bm_request_type, is.b_request, is.w_value, is.w_index);
        asked = omega (arith, d1, is.w_index);
        eight = refl;
        kind_at = omega (arith, d3, e, bit);
        type = omega (arith, d3, e, bit);
        immediate = omega (arith, d3, e, bit);
        bit = omega (arith, d3, e, bit);
      }

pub data_in-IsDataIn :
    (buf_phys len cycle : ℕ)
    → cycle < 2
    → IsDataIn
        (record {
          d0 = buf_phys % 2 ^ 32;
          d1 = buf_phys / 2 ^ 32;
          d2 = len;
          d3 = bit_or (bit_or (2 ^ 16) (3 * 2 ^ 10)) cycle;
        })
        buf_phys
        len
        cycle
data_in-IsDataIn buf_phys len cycle bit =
    let d3 : bit_or 0x10C00 cycle ≡ 0x10C00 + cycle = with_cycle 0x10C00 cycle refl bit in
    record {
      buffer = omega arith;
      room = refl;
      type = omega (arith, d3, bit);
      is_in = omega (arith, d3, bit);
      bit = omega (arith, d3, bit);
    }

pub status-IsStatus :
    (flags is_in cycle : ℕ)
    → cycle < 2
    → is_in < 2
    → flags ≡ is_in * 2 ^ 16 + 0x1020
    → IsStatus (record { d0 = 0; d1 = 0; d2 = 0; d3 = bit_or flags cycle }) is_in cycle
status-IsStatus flags is_in cycle bit small e =
    let d3 = with_cycle flags cycle (omega (arith, e)) bit in
    record {
      type = omega (arith, d3, e, bit);
      direction = omega (arith, d3, e, bit);
      on_completion = omega (arith, d3, e, bit);
      bit = omega (arith, d3, e, bit);
    }
