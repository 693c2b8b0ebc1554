-- ===== src/Gvas/Parts/Good.antt =====
-- The elements and base camps keep the reader's rules: their reads stay inside the data.
use pal_panel_host_wine.Prelude.{ℕ, arith}
use pal_panel_host_wine.Gvas.Value.{Fields}
use pal_panel_host_wine.Gvas.Reader.{must_read_rest, remaining, read}
use pal_panel_host_wine.Gvas.Reader.Good.{Good, Good-bind_eats, good_rules, double_float-Good}
use pal_panel_host_wine.Gvas.Parts.{vector, quat, transform, with_trailing}

pub vector-Good : {n : ℕ} → Good n 1 vector
unfolding vector
vector-Good = Good-bind_eats _ _ double_float-Good λ x. search good_rules depth 20

pub quat-Good : {n : ℕ} → Good n 1 quat
unfolding quat
quat-Good = Good-bind_eats _ _ double_float-Good λ x. search good_rules depth 20

pub transform-Good : {n : ℕ} → Good n 1 transform
unfolding transform
transform-Good = Good-bind_eats _ _ quat-Good λ x. search (good_rules, vector-Good) depth 20

must_read_rest-Good : {n : ℕ} → Good n 0 must_read_rest
unfolding must_read_rest read remaining
must_read_rest-Good = record { at = λ r h b. ground arith }

pub with_trailing-Good : {n : ℕ} (out : Fields) → Good n 0 (with_trailing out)
unfolding with_trailing
with_trailing-Good out = search (good_rules, must_read_rest-Good)
