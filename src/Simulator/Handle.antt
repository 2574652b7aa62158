-- ===== src/Simulator/Handle.antt =====
-- `_handle` of src/kegpulse/serialio/simulator.py: how the simulated device answers a request.
use keg_pulse.Base.{
  ℕ, Bool, false, ◌&&◌, ◌||◌, Option, none, some, List, [], ◌∷◌, leb, not, if◌then◌else◌, ℤ, pos,
}
use keg_pulse.Base.Text.{Text, codes, ◌=t◌}
use keg_pulse.Base.Try.{Try}
use keg_pulse.Protocol.Frames.{Frame, Fields, Coded}
use keg_pulse.Device.Defs.{DeviceSessionMachine, Result, DeviceError, Results}
use keg_pulse.Device.Methods.{arm, cancel, acknowledge, status}
use keg_pulse.Measurement.Numbers.{parse_int}
use keg_pulse.Measurement.Integrity.{field}
use keg_pulse.Measurement.DeviceResults.{is_session_id}
use keg_pulse.Simulator.Replies.{
  response, error_reply, status_fields, result_frame, hello_fields, flag_text,
}

-- What the `except` clauses tell apart: a KeyError, a ConflictError that says "stale", another
-- ConflictError, and any other ValueError
pub data HandlerError : Type 0 where
  missing_field stale busy bad_value : HandlerError

unfoldable pub device_error : DeviceError → HandlerError
device_error DeviceError.time_out_of_range = HandlerError.bad_value
device_error DeviceError.capacity_out_of_range = HandlerError.bad_value
device_error DeviceError.bad_now = HandlerError.bad_value
device_error DeviceError.bad_session = HandlerError.bad_value
device_error DeviceError.bad_ttl = HandlerError.bad_value
device_error DeviceError.bad_count = HandlerError.bad_value
device_error DeviceError.sequence_stale = HandlerError.stale
device_error DeviceError.cancel_stale = HandlerError.stale
device_error _ = HandlerError.busy

-- The code that the error reply carries
unfoldable pub error_code : HandlerError → Text
error_code HandlerError.missing_field = codes "MALFORMED"
error_code HandlerError.stale = codes "STALE"
error_code HandlerError.busy = codes "BUSY"
error_code HandlerError.bad_value = codes "RANGE"

-- The body of `_handle`'s try block: the replies or what was raised, and the device
abbrev pub Handled : Type 0
Handled = Try HandlerError (List (List ℕ)) × DeviceSessionMachine

-- The replies, or the FrameError of the first that cannot be encoded; a FrameError is a ValueError.
unfoldable pub encoded : List (Coded (List ℕ)) → Try HandlerError (List (List ℕ))
encoded [] = Try.ok []
encoded (Coded.err e ∷ rest) = Try.err HandlerError.bad_value
encoded (Coded.ok bytes ∷ rest) = elim (encoded rest) [
  | Try.ok more ↦ Try.ok (bytes ∷ more)
  | Try.err e ↦ Try.err e
]

-- A single reply
abbrev pub reply : Coded (List ℕ) → DeviceSessionMachine → Handled
reply r m = (encoded (r ∷ []), m)

-- `int(fields[key])`
unfoldable pub int_field : Text → Fields → Try HandlerError ℤ
int_field key fields = elim (field key fields) [
  | none ↦ Try.err HandlerError.missing_field
  | some text ↦ elim (parse_int text) [ none ↦ Try.err HandlerError.bad_value | some n ↦ Try.ok n ]
]

-- `fields.get(key) == value`
unfoldable pub field_is : Text → Text → Fields → Bool
field_is key value fields = elim (field key fields) [ none ↦ false | some text ↦ text =t value ]

-- `minimum < 0 or maximum < minimum or minimum > 1 or maximum < 1`, negated
unfoldable pub supports_version : ℤ → ℤ → Bool
supports_version (pos low) (pos high) = leb low high && leb low 1 && leb 1 high
supports_version _ _ = false

unfoldable pub handle_hello : Frame → DeviceSessionMachine → Handled
unfolding int_field supports_version
handle_hello request m = elim (int_field (codes "min") request.fields) [
  | Try.err e ↦ reply (error_reply request (codes "MALFORMED")) m
  | Try.ok low ↦ elim (int_field (codes "max") request.fields) [
    | Try.err e ↦ reply (error_reply request (codes "MALFORMED")) m
    | Try.ok high ↦
        if supports_version low high
        then reply (response request (codes "HELLO") (hello_fields m)) m
        else reply (error_reply request (codes "UNSUPPORTED_VERSION")) m
  ]
]

unfoldable pub handle_ping : Frame → DeviceSessionMachine → Handled
handle_ping request m = elim (field (codes "nonce") request.fields) [
  | none ↦ (Try.err HandlerError.missing_field, m)
  | some nonce ↦ reply (response request (codes "PING") ((codes "nonce", nonce) ∷ [])) m
]

-- `_status_frame`
unfoldable pub handle_status : Frame → ℕ → DeviceSessionMachine → Handled
handle_status request now m =
    let (r, m') = status (some (pos now)) m in
    elim r [
      | Result.err e ↦ (Try.err (device_error e), m')
      | Result.ok s ↦ reply (response request (codes "STATUS") (status_fields s)) m'
    ]

-- The session of an ARM request, if it is 32 lower-case hex digits
unfoldable pub arm_session : Fields → Option Text
arm_session fields = elim (field (codes "sid") fields) [
  | none ↦ none
  | some sid ↦ if is_session_id sid then some sid else none
]

-- The end of the ARM branch: the device is armed, and the request is confirmed.
unfoldable pub arm_device : Frame → Text → Text → ℤ → ℤ → ℕ → DeviceSessionMachine → Handled
arm_device request sid seq_text seq ttl now m =
    let (r, m') = arm sid seq (pos now) (some ttl) m in
    elim r [
      | Result.err e ↦ (Try.err (device_error e), m')
      | Result.ok duplicate ↦
          reply
            (response request (codes "ARM") (
              (codes "state", codes "armed")
              ∷ (codes "boot", m'.boot_id)
              ∷ (codes "seq", seq_text)
              ∷ (codes "sid", sid)
              ∷ (codes "already", flag_text duplicate)
              ∷ []))
            m'
    ]

-- `fields[key]`, known to be there
abbrev pub text_of : Option Text → Text
text_of none = []
text_of (some t) = t

unfoldable pub handle_arm : Frame → ℕ → DeviceSessionMachine → Handled
unfolding int_field field_is arm_device
handle_arm request now m =
    if field_is (codes "boot") m.boot_id request.fields
    then elim (arm_session request.fields) [
      | none ↦ reply (error_reply request (codes "RANGE")) m
      | some sid ↦ elim (int_field (codes "seq") request.fields) [
        | Try.err e ↦ (Try.err e, m)
        | Try.ok seq ↦ elim (int_field (codes "ttl") request.fields) [
          | Try.err e ↦ (Try.err e, m)
          | Try.ok ttl ↦
              arm_device request sid (text_of (field (codes "seq") request.fields)) seq ttl now m
        ]
      ]
    ]
    else reply (error_reply request (codes "STALE")) m

-- The result that `cancel` returns, if any, comes before the confirmation.
unfoldable pub cancel_device : Frame → ℤ → Text → ℕ → DeviceSessionMachine → Handled
cancel_device request seq sid now m =
    let (r, m') = cancel seq sid (pos now) m in
    elim r [
      | Result.err e ↦ (Try.err (device_error e), m')
      | Result.ok (duplicate, result) ↦
          let confirmed =
            response request (codes "CANCEL") ((codes "already", flag_text duplicate) ∷ []) in
          elim result [
            | none ↦ (encoded (confirmed ∷ []), m')
            | some r ↦ (encoded (result_frame r ∷ confirmed ∷ []), m')
          ]
    ]

unfoldable pub handle_cancel : Frame → ℕ → DeviceSessionMachine → Handled
unfolding int_field field_is cancel_device
handle_cancel request now m =
    if field_is (codes "boot") m.boot_id request.fields
    then elim (int_field (codes "seq") request.fields) [
      | Try.err e ↦ (Try.err e, m)
      | Try.ok seq ↦ elim (field (codes "sid") request.fields) [
        | none ↦ (Try.err HandlerError.missing_field, m)
        | some sid ↦ cancel_device request seq sid now m
      ]
    ]
    else reply (error_reply request (codes "STALE")) m

-- `"dev" in fields and fields["dev"] != device_id`
unfoldable pub other_device : Fields → DeviceSessionMachine → Bool
other_device fields m = elim (field (codes "dev") fields) [
  | none ↦ false
  | some dev ↦ not (dev =t m.settings.device_id)
]

unfoldable pub handle_ack : Frame → DeviceSessionMachine → Handled
unfolding int_field field_is other_device
handle_ack request m =
    if other_device request.fields m || not (field_is (codes "boot") m.boot_id request.fields)
    then reply (error_reply request (codes "STALE")) m
    else elim (int_field (codes "seq") request.fields) [
      | Try.err e ↦ (Try.err e, m)
      | Try.ok seq ↦
          let (already, m') = acknowledge seq m in
          reply (response request (codes "ACK") ((codes "already", flag_text already) ∷ [])) m'
    ]

-- The frames of all retained results, oldest first
unfoldable pub result_frames : Results → List (Coded (List ℕ))
result_frames [] = []
result_frames ((seq, r) ∷ rs) = result_frame r ∷ result_frames rs
