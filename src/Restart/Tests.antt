-- ===== src/Restart/Tests.antt =====
-- A pending change to `Off`, stored and taken.
use nam_plug.Prelude.{◌≡◌}
use nam_plug.Samples.{off, dsp, dsp-Factors}
use nam_plug.Restart.{no_restart, pending, encode, decode, take, decode-encode}

decode-encode_example :
    (decode dsp (encode dsp (pending off)) ≡ pending off)
    × (take dsp (encode dsp (pending off)) ≡ (pending off, encode dsp no_restart))
    × (decode dsp (take dsp (encode dsp (pending off))).1 ≡ no_restart)
decode-encode_example = decode-encode dsp dsp-Factors (pending off)
