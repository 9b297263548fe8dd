-- ===== src/Tests/Gateway.antt =====
-- A captured request for two holding registers of slave 1 and its response, behind a stray byte.
use plantlens.Prelude.{ℕ, ◌≡◌, refl, some, List, [], ◌∷◌, ◌++◌, All}
use plantlens.Gateway.Scan.{
  modbus_crc, has_valid_crc, crc_from, first_valid, matched, scan_from, scan_rtu_frames,
}
use plantlens.Gateway.Decode.{
  PassiveGateway, TagId, Observation, holding, decode, decode_frame, note_request, answer,
  store_words,
}
use plantlens.Gateway.Starts.{Reads}
use plantlens.Gateway.Recover.{IsFrame, scan_rtu_frames-Reads}
use plantlens.Gateway.Safe.{Returns, captured_decode-Returns}

abbrev request : List ℕ
request = 1 ∷ 3 ∷ 0 ∷ 10 ∷ 0 ∷ 2 ∷ 228 ∷ 9 ∷ []

abbrev response : List ℕ
response = 1 ∷ 3 ∷ 4 ∷ 0 ∷ 7 ∷ 1 ∷ 2 ∷ 203 ∷ 163 ∷ []

abbrev captured : List ℕ
captured = 77 ∷ request ++ response

abbrev idle : PassiveGateway
idle = record {
  pending = [];
  registers = [];
  seq = 0;
  request_frames = 0;
  response_frames = 0;
  register_updates = 0;
}

abbrev hreg : ℕ → TagId
hreg register = record { slave = 1; table = holding; register = register }

abbrev seen : ℕ → ℕ → ℕ → Observation
seen register value seq = record { tag_id = hreg register; value = value; timestamp = 5; seq = seq }

scanned : scan_rtu_frames captured ≡ request ∷ response ∷ []
unfolding scan_rtu_frames scan_from matched first_valid has_valid_crc modbus_crc crc_from
scanned = refl

-- The two registers of the response, with the numbers 1 and 2.
decoded_values :
    (decode 5 (request ∷ response ∷ []) idle)
    ≡ some (
      record idle {
        pending = (1, record { function = 3; address = 10; count = 2 }) ∷ [];
        registers = (hreg 11, seen 11 258 2) ∷ (hreg 10, seen 10 7 1) ∷ [];
        seq = 2;
        request_frames = 1;
        response_frames = 1;
        register_updates = 2;
      },
      seen 10 7 1 ∷ seen 11 258 2 ∷ [],
    )
unfolding decode decode_frame note_request answer store_words
decoded_values = refl

scan_rtu_frames-Reads_example :
    Reads captured (scan_rtu_frames captured) × All IsFrame (scan_rtu_frames captured)
scan_rtu_frames-Reads_example = scan_rtu_frames-Reads captured

captured_decode-Returns_example : Returns idle (decode 5 (scan_rtu_frames captured) idle)
captured_decode-Returns_example = captured_decode-Returns 5 captured idle
