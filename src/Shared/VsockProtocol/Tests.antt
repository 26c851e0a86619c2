-- ===== src/Shared/VsockProtocol/Tests.antt =====
-- Runs of the frames, and the theorem at a stream with a broken line.
use script_jail.Base.{
  true, false, List, [], ◌∷◌, Option, none, some, Text, codes, text_eq, lookup, trim, trim_start,
  trim_end, is_white_space, ◌≡◌, refl,
}
use script_jail.Shared.VsockProtocol.{
  Json, Fields, Thrown, handshake, install_done, error, string_of, field_of, classify_frame,
  parse_frames,
}
use script_jail.Shared.VsockProtocol.Laws.{Completes, parse_frames-Completes}

abbrev handshake_json : Json
handshake_json = Json.object (
    Fields.field (codes "kind") (Json.text (codes "handshake"))
      (Fields.field (codes "phase") (Json.text (codes "install_done")) Fields.no_field))

abbrev fatal_json : Json
fatal_json = Json.object (
    Fields.field (codes "kind") (Json.text (codes "error")) (
      Fields.field (codes "message") (Json.text (codes "no"))
        (Fields.field (codes "fatal") (Json.bool true) Fields.no_field)))

-- {"kind": {"toString": null}}
abbrev hostile_json : Json
hostile_json = Json.object (
    Fields.field (codes "kind")
      (Json.object (Fields.field (codes "toString") Json.null_json Fields.no_field))
      Fields.no_field)

-- a parser that knows three lines
abbrev parse : Text → Option Json
parse s =
    lookup s
      ((codes "H", handshake_json) ∷ (codes "F", fatal_json) ∷ (codes "X", hostile_json) ∷ [])

abbrev lines : List Text
lines = codes " H" ∷ codes "" ∷ codes "{oops" ∷ codes "F" ∷ []

yielded : parse_frames parse lines ≡ (
  handshake install_done
      ∷ error (codes "script-jail vsock: malformed JSON frame: {oops") false
      ∷ error (codes "no") true
      ∷ [],
  none,
)
unfolding parse_frames classify_frame field_of string_of trim trim_start trim_end is_white_space
    lookup text_eq
yielded = refl

-- The text of such a kind cannot be made: the stream ends with an exception, and what follows is lost.
hostile : parse_frames parse (codes "X" ∷ codes "H" ∷ []) ≡ ([], some Thrown.type_error)
unfolding parse_frames classify_frame field_of string_of trim trim_start trim_end is_white_space
    lookup text_eq
hostile = refl

parse_frames-Completes_example : Completes parse lines (parse_frames parse lines)
unfolding field_of trim trim_start trim_end is_white_space lookup text_eq
parse_frames-Completes_example =
    parse_frames-Completes parse lines ((tt, tt, tt), (tt, (tt, ((tt, tt, tt), tt))))
