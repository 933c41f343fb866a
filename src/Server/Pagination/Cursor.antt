-- ===== src/Server/Pagination/Cursor.antt =====
-- A cursor that a page carries is read back as the place where the page ended.
use pushboy.Prelude.{ℕ, String, ◌≡◌, refl, false, Option, ◌==◌, eq_refl, eqb, ok}
use pushboy.Model.Push.{NotificationJobStatus}
use pushboy.Server.Pagination.{Codec, parse_cursor, encode_cursor, optional_text}

module _ (codec : Codec) where
  -- On the route and with the status that it was made for, a cursor is read back as the time and the
  -- id that it was made of, where these are not empty.
  pub parse_cursor-encode_cursor :
      (route : String) (status : Option NotificationJobStatus) (t : ℕ) (id : String)
      → eqb t 0 ≡ false
      → (id == "") ≡ false
      → parse_cursor codec (encode_cursor codec route status t id) route status
        ≡ ok (record { sort_value = t; id = id })
  unfolding parse_cursor encode_cursor
  parse_cursor-encode_cursor route status t id nt ni =
      rw
        (
          nt,
          ni,
          codec.encode-nonempty,
          codec.decode-encode,
          eq_refl route,
          eq_refl (optional_text status),
          codec.format-nonempty,
          codec.parse-format,
          ni,
        )
        refl
