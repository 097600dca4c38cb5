-- ===== src/Packing/Tests.antt =====
-- The round trip, used on a row of three columns.
use fbpp.Prelude.{◌≡◌, refl, true, false, some, length}
use fbpp.Prelude.Ascii.{Bytes}
use fbpp.Prelude.Result.{ok}
use fbpp.Codec.Samples.{absent, blank_message}
use fbpp.Packing.{pack, unpack}
use fbpp.Packing.RoundTrip.{unpack-pack}
use fbpp.Packing.Samples.{columns, room, kinds, values, values-RowFits}

unpack-pack_example :
    (m' : Bytes) × (pack absent false (some (columns, 30)) values (some blank_message) ≡ ok m')
    × (length m' ≡ 30)
    × (unpack absent true (some columns) kinds (some m') ≡ ok values)
unpack-pack_example =
    unpack-pack absent absent false true room columns 30 blank_message kinds values values refl
      values-RowFits
