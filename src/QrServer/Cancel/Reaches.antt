-- ===== src/QrServer/Cancel/Reaches.antt =====
-- server-pc/src/qr_server.rs: a cancel request finds the id that it was given.
use remote_control.Base.{
  ℕ, zero, suc, ◌+◌, ◌-◌, ◌%◌, ◌/◌, ◌^◌, ◌<◌, ◌≡◌, refl, false, List, [], ◌∷◌, ◌++◌, some, nat_eq,
  ltb, get, get-insert_self, if_intro, append_assoc, append-nil, ap, sym, ◌∙◌, arith,
}
use remote_control.Base.Decimal.{to_string, print_digits, parse_uint-to_string}
use remote_control.Base.Text.{codes, split_once, strip_prefix, contains}
use remote_control.FileSend.{FileSendCmd, cancel, dispatch}
use remote_control.QrServer.{Shared, send_json}
use remote_control.QrServer.Cancel.{split, first_id, parse_id_query, handle_cancel_send}

contains-append :
    (c : ℕ) (xs ys : List ℕ)
    → contains c xs ≡ false
    → contains c ys ≡ false
    → contains c (xs ++ ys) ≡ false
unfolding contains
contains-append c [] ys a b = b
contains-append c (x ∷ xs) ys a b = ground (arith, contains-append c xs ys)

-- Only digits are printed.
no_ampersand : (k n : ℕ) → contains b'&' (print_digits k n) ≡ false
unfolding print_digits contains
no_ampersand zero n = refl
no_ampersand (suc k) n =
    if_intro (λ s. contains b'&' s ≡ false) (ltb n 10) (λ b. ground arith)
      (λ b.
        contains-append b'&' (print_digits k (n / 10)) ((b'0' + n % 10) ∷ [])
          (no_ampersand k (n / 10)) (ground arith))

split_whole : (c : ℕ) (part s : List ℕ) → contains c s ≡ false → split c part s ≡ (part ++ s) ∷ []
unfolding split contains
split_whole c part [] h = ap (λ x. x ∷ []) (sym (append-nil part))
split_whole c part (x ∷ s) h =
    ground (arith, split_whole c (part ++ (x ∷ [])) s, append_assoc part (x ∷ []) s)

abbrev pub cancel_path : ℕ → List ℕ
cancel_path id = codes "/cancel-send?id=" ++ to_string id

parse_id_query-cancel_path : (id : ℕ) → id < 2 ^ 32 → parse_id_query (cancel_path id) ≡ some id
unfolding parse_id_query split_once to_string first_id strip_prefix contains
parse_id_query-cancel_path id h =
    ap first_id (
      split_whole b'&' [] (codes "id=" ++ print_digits 20 id)
        (contains-append b'&' (codes "id=") (print_digits 20 id) refl (no_ampersand 20 id)))
    ∙ parse_uint-to_string id (2 ^ 32 - 1) (omega arith) (omega arith)

-- A cancel request for an id, as the page makes it, is answered with 200, and the session that holds the
-- slot is told to cancel just that transfer.
pub cancel_reaches :
    (id i tx : ℕ) (queue : List FileSendCmd) (sh : Shared)
    → id < 2 ^ 32
    → sh.bridge.inner ≡ some (i, tx)
    → get tx sh.channels ≡ some queue
    → ((handle_cancel_send (cancel_path id) sh).1
        ≡ send_json 200 (codes "OK") (codes "{\"ok\":true}"))
      × (get tx (handle_cancel_send (cancel_path id) sh).0.channels
          ≡ some (queue ++ (cancel id ∷ [])))
unfolding handle_cancel_send dispatch
cancel_reaches id i tx queue sh small e g =
    let found = parse_id_query-cancel_path id small in
    (
      rw (found, handle_cancel_send) refl,
      rw (found, handle_cancel_send)
          (rw (e, dispatch) (rw (g) (get-insert_self tx (queue ++ (cancel id ∷ [])) sh.channels))),
    )
