-- ===== src/Shared/VsockProtocol.antt =====
-- src/shared/vsock-protocol.ts: the frames that the guest sends, a line each. The lines of the stream
-- and `JSON.parse` are parameters.
pub mod Laws
mod Tests
use script_jail.Base.{
  Bool, true, false, List, [], ◌∷◌, ◌++◌, Option, none, some, Text, codes, text_eq, take, trim,
  Result, ok, err, ◌>>=◌, if◌then◌else◌,
}

-- What `JSON.parse` returns. A number is the text that `String` makes of it; an object has each key
-- once.
mutual
  pub data Json : Type 0 where
    null_json : Json
    bool : Bool → Json
    number : Text → Json
    text : Text → Json
    array : Elements → Json
    object : Fields → Json

  pub data Elements : Type 0 where
    no_element : Elements
    element : Json → Elements → Elements

  pub data Fields : Type 0 where
    no_field : Fields
    field : Text → Json → Fields → Fields

-- `obj[key]`
unfoldable pub field_of : Text → Fields → Option Json
unfolding text_eq
field_of key Fields.no_field = none
field_of key (Fields.field k v rest) = if text_eq k key then some v else field_of key rest

-- An exception of the language.
pub data Thrown : Type 0 where
  type_error : Thrown

-- `String` of an object calls its `toString`, which is no function if the object has one of its own:
-- a value that was parsed is never a function, and `valueOf` gives no text either.
abbrev object_text : Option Json → Result Thrown Text
object_text none = ok (codes "[object Object]")
object_text (some v) = err Thrown.type_error

abbrev boolean_text : Bool → Text
boolean_text true = codes "true"
boolean_text false = codes "false"

abbrev join_text : Text → Text → Bool → Text
join_text a rest true = a
join_text a rest false = a ++ codes "," ++ rest

abbrev is_last : Elements → Bool
is_last Elements.no_element = true
is_last (Elements.element v rest) = false

-- `String(v)`, and the text of an element of an array, where `null` has none
unfoldable mutual
  unfolding field_of

  pub string_of : Json → Result Thrown Text
  string_of Json.null_json = ok (codes "null")
  string_of (Json.bool b) = ok (boolean_text b)
  string_of (Json.number t) = ok t
  string_of (Json.text t) = ok t
  string_of (Json.array vs) = joined vs
  string_of (Json.object fs) = object_text (field_of (codes "toString") fs)

  pub element_text : Json → Result Thrown Text
  element_text Json.null_json = ok []
  element_text (Json.bool b) = ok (boolean_text b)
  element_text (Json.number t) = ok t
  element_text (Json.text t) = ok t
  element_text (Json.array vs) = joined vs
  element_text (Json.object fs) = object_text (field_of (codes "toString") fs)

  pub joined : Elements → Result Thrown Text
  joined Elements.no_element = ok []
  joined (Elements.element v rest) =
      element_text v >>= λ a. joined rest >>= λ b. ok (join_text a b (is_last rest))

pub data Phase : Type 0 where
  fetch_done install_done : Phase

pub data GuestFrame : Type 0 where
  event : Json → GuestFrame
  handshake : Phase → GuestFrame
  error : Text → Bool → GuestFrame
  final : Text → GuestFrame

-- `raw[key]`; no array has one of the names that are asked for
abbrev pub property_of : Text → Json → Option Json
property_of key Json.null_json = none
property_of key (Json.bool b) = none
property_of key (Json.number t) = none
property_of key (Json.text t) = none
property_of key (Json.array vs) = none
property_of key (Json.object fs) = field_of key fs

-- The text, if `typeof v === 'string'`.
abbrev pub text_of : Option Json → Option Text
text_of none = none
text_of (some Json.null_json) = none
text_of (some (Json.bool b)) = none
text_of (some (Json.number t)) = none
text_of (some (Json.text t)) = some t
text_of (some (Json.array vs)) = none
text_of (some (Json.object fs)) = none

-- `v === true`
abbrev pub is_json_true : Option Json → Bool
is_json_true none = false
is_json_true (some Json.null_json) = false
is_json_true (some (Json.bool b)) = b
is_json_true (some (Json.number t)) = false
is_json_true (some (Json.text t)) = false
is_json_true (some (Json.array vs)) = false
is_json_true (some (Json.object fs)) = false

-- `String(obj[key])`
abbrev pub string_of_property : Option Json → Result Thrown Text
string_of_property none = ok (codes "undefined")
string_of_property (some v) = string_of v

abbrev pub unknown_phase : Text
unknown_phase = codes "script-jail vsock: unknown handshake phase: "

abbrev pub unknown_kind : Text
unknown_kind = codes "script-jail vsock: unknown frame kind: "

-- An error that the host only logs, with a value in its message.
abbrev pub unknown : Text → Option Json → Result Thrown GuestFrame
unknown message v = string_of_property v >>= λ t. ok (error (message ++ t) false)

abbrev pub handshake_frame : Option Json → Option Text → Result Thrown GuestFrame
handshake_frame phase none = unknown unknown_phase phase
handshake_frame phase (some t) =
    if text_eq t (codes "fetch_done")
    then ok (handshake fetch_done)
    else (if text_eq t (codes "install_done")
        then ok (handshake install_done)
        else unknown unknown_phase phase)

abbrev pub error_frame : Option Json → Option Text → Bool → Result Thrown GuestFrame
error_frame message none fatal = string_of_property message >>= λ t. ok (error t fatal)
error_frame message (some t) fatal = ok (error t fatal)

abbrev pub final_frame : Option Text → Result Thrown GuestFrame
final_frame none =
    ok (error (codes "script-jail vsock: \"final\" frame missing \"yaml\" string field") false)
final_frame (some t) = ok (final t)

abbrev pub classify_kind : Json → Option Text → Result Thrown GuestFrame
classify_kind obj none = unknown unknown_kind (property_of (codes "kind") obj)
classify_kind obj (some kind) =
    if text_eq kind (codes "event")
    then ok (event obj)
    else (if text_eq kind (codes "handshake")
        then handshake_frame (property_of (codes "phase") obj)
            (text_of (property_of (codes "phase") obj))
        else (if text_eq kind (codes "error")
            then error_frame (property_of (codes "message") obj)
                (text_of (property_of (codes "message") obj))
                (is_json_true (property_of (codes "fatal") obj))
            else (if text_eq kind (codes "final")
                then final_frame (text_of (property_of (codes "yaml") obj))
                else unknown unknown_kind (property_of (codes "kind") obj))))

unfoldable pub classify_frame : Json → Result Thrown GuestFrame
unfolding string_of field_of text_eq
classify_frame obj = classify_kind obj (text_of (property_of (codes "kind") obj))

-- `typeof raw !== 'object' || raw === null`
abbrev pub is_not_frame : Json → Bool
is_not_frame Json.null_json = true
is_not_frame (Json.bool b) = true
is_not_frame (Json.number t) = true
is_not_frame (Json.text t) = true
is_not_frame (Json.array vs) = false
is_not_frame (Json.object fs) = false

abbrev pub frame_of_json : Text → Option Json → Result Thrown GuestFrame
frame_of_json trimmed none =
    ok (error (codes "script-jail vsock: malformed JSON frame: " ++ take 200 trimmed) false)
frame_of_json trimmed (some raw) =
    if is_not_frame raw
    then ok
        (error (codes "script-jail vsock: expected JSON object, got: " ++ take 200 trimmed) false)
    else classify_frame raw

-- A line that is not blank is a frame, or an exception.
abbrev pub frame_of : (Text → Option Json) → Text → Option (Result Thrown GuestFrame)
frame_of parse [] = none
frame_of parse (c ∷ trimmed) = some (frame_of_json (c ∷ trimmed) (parse (c ∷ trimmed)))

-- What is yielded, and the exception that ends the stream, if one does.
abbrev pub Yielded : Type 0
Yielded = List GuestFrame × Option Thrown

abbrev pub yield_frame : Option (Result Thrown GuestFrame) → Yielded → Yielded
yield_frame none later = later
yield_frame (some (err thrown)) later = ([], some thrown)
yield_frame (some (ok frame)) (frames, thrown) = (frame ∷ frames, thrown)

unfoldable pub parse_frames : (Text → Option Json) → List Text → Yielded
unfolding trim classify_frame
parse_frames parse [] = ([], none)
parse_frames parse (line ∷ lines) =
    yield_frame (frame_of parse (trim line)) (parse_frames parse lines)
