-- ===== src/Gvas/Header/Good.antt =====
-- The header is read inside the data.
use pal_panel_host_wine.Prelude.{ℕ}
use pal_panel_host_wine.Prelude.Int.{ℤ}
use pal_panel_host_wine.Gvas.Reader.Good.{Good, Good-bind_eats, good_rules, i32-Good, guid-Good}
use pal_panel_host_wine.Gvas.Header.{read_version, read_header_rest, read_header}

module _ {n : ℕ} where
  read_version-Good : Good n 1 read_version
  unfolding read_version
  read_version-Good = Good-bind_eats _ _ guid-Good λ g. search good_rules

  read_header_rest-Good : (m v : ℤ) → Good n 0 (read_header_rest m v)
  unfolding read_header_rest
  read_header_rest-Good m v = search (good_rules, read_version-Good) depth 40

  pub read_header-Good : Good n 1 read_header
  unfolding read_header
  read_header-Good =
      Good-bind_eats _ _ i32-Good λ m. search (good_rules, read_header_rest-Good) depth 10
