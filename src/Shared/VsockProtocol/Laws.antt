-- ===== src/Shared/VsockProtocol/Laws.antt =====
-- What becomes of the lines of a guest.
use script_jail.Base.{
  Bool, false, not, ◌&&◌, List, [], ◌∷◌, ◌++◌, Option, none, some, Text, codes, text_eq, trim,
  Result, ok, All, ◌≡◌, ◌≢◌, refl, sym, subst, inl, inr, arith, Bool-cases,
}
use script_jail.Shared.VsockProtocol.{
  Json, Thrown, GuestFrame, event, handshake, error, final, property_of, text_of, is_json_true,
  string_of, string_of_property, unknown_phase, unknown_kind, unknown, fetch_done, install_done,
  handshake_frame, error_frame, final_frame, classify_kind, classify_frame, is_not_frame,
  frame_of_json, frame_of, yield_frame, Yielded, parse_frames,
}

-- A property that is not there or is a text.
abbrev pub IsTextOrAbsent : Option Json → Type 0
IsTextOrAbsent none = Unit
IsTextOrAbsent (some Json.null_json) = ⊥
IsTextOrAbsent (some (Json.bool b)) = ⊥
IsTextOrAbsent (some (Json.number t)) = ⊥
IsTextOrAbsent (some (Json.text t)) = Unit
IsTextOrAbsent (some (Json.array vs)) = ⊥
IsTextOrAbsent (some (Json.object fs)) = ⊥

-- What a guest means to send, if it is an object.
abbrev pub IsSound : Json → Type 0
IsSound obj =
    IsTextOrAbsent (property_of (codes "kind") obj)
    × IsTextOrAbsent (property_of (codes "phase") obj)
    × IsTextOrAbsent (property_of (codes "message") obj)

abbrev pub IsSoundIfParsed : Option Json → Type 0
IsSoundIfParsed none = Unit
IsSoundIfParsed (some obj) = IsSound obj

abbrev pub is_fatal : GuestFrame → Bool
is_fatal (event e) = false
is_fatal (handshake p) = false
is_fatal (error m fatal) = fatal
is_fatal (final t) = false

abbrev is_kind : Text → Option Text → Bool
is_kind kind none = false
is_kind kind (some t) = text_eq t kind

-- The guest has called its error fatal.
abbrev pub calls_fatal : Option Json → Bool
calls_fatal none = false
calls_fatal (some obj) =
    is_kind (codes "error") (text_of (property_of (codes "kind") obj))
    && is_json_true (property_of (codes "fatal") obj)

-- A frame came of a line, and is fatal only where the guest has called it so.
pub data Framed (parsed : Option Json) (r : Result Thrown GuestFrame) : Type 0 where
  framed :
      (frame : GuestFrame)
      → r ≡ ok frame
      → (is_fatal frame && not (calls_fatal parsed)) ≡ false
      → Framed parsed r

text_of_property : (v : Option Json) → IsTextOrAbsent v → (t : Text) × (string_of_property v ≡ ok t)
text_of_property none _ = (codes "undefined", refl)
text_of_property (some Json.null_json) h = absurd h
text_of_property (some (Json.bool b)) h = absurd h
text_of_property (some (Json.number t)) h = absurd h
text_of_property (some (Json.text t)) _ = (t, unfold string_of in refl)
text_of_property (some (Json.array vs)) h = absurd h
text_of_property (some (Json.object fs)) h = absurd h

unknown-Framed :
    (parsed : Option Json) (message : Text) (v : Option Json)
    → IsTextOrAbsent v
    → Framed parsed (unknown message v)
unknown-Framed parsed message v h =
    let (t, e) = text_of_property v h in Framed.framed (error (message ++ t) false) (rw e refl) refl

handshake-Framed :
    (parsed phase : Option Json) (t : Option Text)
    → IsTextOrAbsent phase
    → Framed parsed (handshake_frame phase t)
handshake-Framed parsed phase none h = unknown-Framed parsed unknown_phase phase h
handshake-Framed parsed phase (some t) h = elim (Bool-cases (text_eq t (codes "fetch_done"))) [
  | inl e ↦ rw e (Framed.framed (handshake fetch_done) refl refl)
  | inr e ↦ elim (Bool-cases (text_eq t (codes "install_done"))) [
    | inl e' ↦ rw (e, e') (Framed.framed (handshake install_done) refl refl)
    | inr e' ↦ rw (e, e') (unknown-Framed parsed unknown_phase phase h)
  ]
]

final-Framed : (parsed : Option Json) (t : Option Text) → Framed parsed (final_frame t)
final-Framed parsed none = Framed.framed _ refl refl
final-Framed parsed (some t) = Framed.framed (final t) refl refl

error-Framed :
    (parsed message : Option Json) (t : Option Text) (fatal : Bool)
    → IsTextOrAbsent message
    → calls_fatal parsed ≡ fatal
    → Framed parsed (error_frame message t fatal)
error-Framed parsed message none fatal h called =
    let (t, e) = text_of_property message h in
    Framed.framed (error t fatal) (rw e refl) (rw called (never_both fatal))
  where
    never_both : (b : Bool) → (b && not b) ≡ false
    never_both b = ground arith
error-Framed parsed message (some t) fatal h called =
    Framed.framed (error t fatal) refl (rw called (never_both fatal))
  where
    never_both : (b : Bool) → (b && not b) ≡ false
    never_both b = ground arith

classify-Framed :
    (obj : Json) (kind : Option Text)
    → text_of (property_of (codes "kind") obj) ≡ kind
    → IsSound obj
    → Framed (some obj) (classify_kind obj kind)
classify-Framed obj none k (sk, sp, sm) =
    unknown-Framed (some obj) unknown_kind (property_of (codes "kind") obj) sk
classify-Framed obj (some kind) k (sk, sp, sm) = elim (Bool-cases (text_eq kind (codes "event"))) [
  | inl e ↦ rw e (Framed.framed (event obj) refl refl)
  | inr e ↦ elim (Bool-cases (text_eq kind (codes "handshake"))) [
    | inl e' ↦ rw (e, e') (handshake-Framed (some obj) (property_of (codes "phase") obj) _ sp)
    | inr e' ↦ elim (Bool-cases (text_eq kind (codes "error"))) [
      | inl e'' ↦
          let called : calls_fatal (some obj) ≡ is_json_true (property_of (codes "fatal") obj) =
            rw (k, e'') refl in
          rw (e, e', e'')
            (error-Framed (some obj) (property_of (codes "message") obj) _ _ sm called)
      | inr e'' ↦ elim (Bool-cases (text_eq kind (codes "final"))) [
        | inl e3 ↦
            rw (e, e', e'', e3) (final-Framed (some obj) (text_of (property_of (codes "yaml") obj)))
        | inr e3 ↦
            rw (e, e', e'', e3)
              (unknown-Framed (some obj) unknown_kind (property_of (codes "kind") obj) sk)
      ]
    ]
  ]
]

frame_of_json-Framed :
    (trimmed : Text) (parsed : Option Json)
    → IsSoundIfParsed parsed
    → Framed parsed (frame_of_json trimmed parsed)
unfolding classify_frame
frame_of_json-Framed trimmed none _ = Framed.framed _ refl refl
frame_of_json-Framed trimmed (some raw) h = elim (Bool-cases (is_not_frame raw)) [
  | inl e ↦ rw e (Framed.framed _ refl refl)
  | inr e ↦ rw e (classify-Framed raw (text_of (property_of (codes "kind") raw)) refl h)
]

-- Of each line that is not blank one frame came, in their order, fatal only where the guest called it
-- so.
pub data Frames (parse : Text → Option Json) : List Text → List GuestFrame → Type 0 where
  done : Frames parse [] []
  blank :
      {line : Text} {lines : List Text} {frames : List GuestFrame}
      → trim line ≡ []
      → Frames parse lines frames
      → Frames parse (line ∷ lines) frames
  one :
      {line : Text} {lines : List Text} {frame : GuestFrame} {frames : List GuestFrame}
      → trim line ≢ []
      → (is_fatal frame && not (calls_fatal (parse (trim line)))) ≡ false
      → Frames parse lines frames
      → Frames parse (line ∷ lines) (frame ∷ frames)

module _ (parse : Text → Option Json) where
  parse_frames_cons :
      (line : Text) (lines : List Text)
      → parse_frames parse (line ∷ lines)
        ≡ yield_frame (frame_of parse (trim line)) (parse_frames parse lines)
  unfolding parse_frames
  parse_frames_cons line lines = refl

  -- The stream goes to its end.
  abbrev pub Completes : List Text → Yielded → Type 0
  Completes lines y = (y.1 ≡ none) × Frames parse lines y.0

  add-Completes :
      (line trimmed : Text) (lines : List Text) (later : Yielded)
      → trim line ≡ trimmed
      → IsSoundIfParsed (parse trimmed)
      → Completes lines later
      → Completes (line ∷ lines) (yield_frame (frame_of parse trimmed) later)
  add-Completes line [] lines later e h (whole, frames) = (whole, Frames.blank e frames)
  add-Completes line (c ∷ trimmed) lines later e h (whole, frames) =
      elim (frame_of_json-Framed (c ∷ trimmed) (parse (c ∷ trimmed)) h) [
        | Framed.framed frame ran fatal ↦
            subst (λ r. Completes (line ∷ lines) (yield_frame (some r) later)) (sym ran)
              (
                whole,
                Frames.one (λ empty. cc)
                    (subst (λ t. (is_fatal frame && not (calls_fatal (parse t))) ≡ false) (sym e)
                      fatal)
                    frames,
              )
      ]

  -- Whatever lines do not parse or hold no object, the stream goes to its end, if in the objects that
  -- the others hold `kind`, `phase` and `message` are texts or absent: each line that is not blank gives
  -- one frame, in their order, and a frame is a fatal error only where the guest has called it fatal.
  pub parse_frames-Completes :
      (lines : List Text)
      → All (λ line. IsSoundIfParsed (parse (trim line))) lines
      → Completes lines (parse_frames parse lines)
  parse_frames-Completes [] _ = unfold parse_frames in (refl, Frames.done)
  parse_frames-Completes (line ∷ lines) (h, hs) =
      subst (Completes (line ∷ lines)) (sym (parse_frames_cons line lines)) (
        add-Completes line (trim line) lines (parse_frames parse lines) refl h
          (parse_frames-Completes lines hs))
