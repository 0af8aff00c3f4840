-- ===== src/LibeventServer/Tests.antt =====
-- Replies to concrete bytes.
use middleware_development_d.Prelude.{◌≡◌, some, [], ◌∷◌, ◌++◌, arith, ok}
use middleware_development_d.LibeventServer.{
  replied, reply_start, socket_read_cb, socket_read_callback,
}
use middleware_development_d.LibeventServer.Reply.{socket_read_cb-text, socket_read_callback-text}

socket_read_cb-text_example :
    socket_read_cb (some (104 ∷ 105 ∷ [])) ≡ ok (replied (reply_start ++ (104 ∷ 105 ∷ [])))
socket_read_cb-text_example =
    socket_read_cb-text (104 ∷ 105 ∷ []) (omega arith, (omega arith, tt)) (omega arith)

socket_read_callback-text_example :
    socket_read_callback (some (104 ∷ [])) ≡ ok (some (reply_start ++ (104 ∷ 10 ∷ [])))
socket_read_callback-text_example = socket_read_callback-text (104 ∷ []) (omega arith, tt)
