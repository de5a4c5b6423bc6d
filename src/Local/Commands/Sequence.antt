-- ===== src/Local/Commands/Sequence.antt =====
-- The remote control of pkg/rockrobo/local_connection.go: the numbers of its messages.
use mathlib.Core.List.{append_assoc, append-nil}
use rocklet.Base.{
  ℕ, zero, suc, ◌+◌, List, [], ◌∷◌, ◌++◌, Bool, true, ◌≡◌, refl, ap, sym, ◌∙◌, arith,
}
use rocklet.Local.Commands.{
  MethodParamsRequestAppRc, Params, no_params, status, rc, Message, Robot, Call, app_rc_move,
  app_rc_start, app_rc_end, app_start, app_stop, app_pause, app_spot, app_charge, serve, serve_all,
}

module _ {F : Type 0} where
  numbers : List (MethodParamsRequestAppRc F) → List ℕ
  numbers [] = []
  numbers (p ∷ ps) = p.sequence_number ∷ numbers ps

  numbers_of : Params F → List ℕ
  unfolding numbers
  numbers_of no_params = []
  numbers_of (status text) = []
  numbers_of (rc ps) = numbers ps

  -- The sequence numbers of the messages, in the order in which they were sent.
  unfoldable pub sequence_numbers : List (Message F) → List ℕ
  unfolding numbers_of
  sequence_numbers [] = []
  sequence_numbers (m ∷ ms) = numbers_of m.params ++ sequence_numbers ms

  sequence_numbers-append :
      (ms : List (Message F)) (m : Message F)
      → sequence_numbers (ms ++ m ∷ []) ≡ sequence_numbers ms ++ numbers_of m.params
  unfolding sequence_numbers
  sequence_numbers-append [] m = append-nil (numbers_of m.params)
  sequence_numbers-append (n ∷ ms) m =
      ap (λ l. numbers_of n.params ++ l) (sequence_numbers-append ms m)
      ∙ sym (append_assoc (numbers_of n.params) (sequence_numbers ms) (numbers_of m.params))

-- n, n + 1, …: as many numbers as are asked for.
abbrev pub count_from : ℕ → ℕ → List ℕ
count_from n zero = []
count_from n (suc k) = n ∷ count_from (n + 1) k

count_from-append : (n k l : ℕ) → count_from n k ++ count_from (n + k) l ≡ count_from n (k + l)
count_from-append n zero l =
    let e : n + 0 ≡ n = omega arith in
    let d : l ≡ 0 + l = omega arith in ap (λ m. count_from m l) e ∙ ap (count_from n) d
count_from-append n (suc k) l =
    let e : n + suc k ≡ n + 1 + k = omega arith in
    let d : suc (k + l) ≡ suc k + l = omega arith in
    ap (λ m. n ∷ (count_from (n + 1) k ++ count_from m l)) e
    ∙ (ap (λ t. n ∷ t) (count_from-append (n + 1) k l) ∙ ap (count_from n) d)

module _ {F : Type 0} where
  -- How many numbers a call sends.
  abbrev pub numbered : Call F → ℕ
  numbered (app_rc_move v w d) = 1
  numbered app_rc_end = 1
  numbered _ = 0

  abbrev pub count_numbered : List (Call F × ℕ) → ℕ
  count_numbered [] = 0
  count_numbered ((c, id) ∷ rest) = numbered c + count_numbered rest

  module _ (finite : F → Bool) where
    -- No new session begins, and the speeds can be marshalled.
    abbrev pub GoesOn : Call F → Type 0
    GoesOn app_rc_start = ⊥
    GoesOn (app_rc_move v w d) = (finite w ≡ true) × (finite v ≡ true)
    GoesOn _ = Unit

    pub record Sends (r : Robot F) (k : ℕ) (s : Robot F) : Type 0 where
      pub counter : s.app_rc_sequence_number ≡ r.app_rc_sequence_number + k
      pub order :
          sequence_numbers s.outgoing_queue_app_proxy
          ≡ sequence_numbers r.outgoing_queue_app_proxy ++ count_from r.app_rc_sequence_number k

    serve-Sends :
        (r : Robot F) (c : Call F) (id : ℕ)
        → GoesOn c
        → Sends r (numbered c) (serve finite r c id).0
    unfolding serve sequence_numbers
    serve-Sends r app_rc_start id h = absurd h
    serve-Sends r (app_rc_move v w d) id h =
        rw (h.0, h.1)
          (record { counter = refl; order = sequence_numbers-append r.outgoing_queue_app_proxy _ })
    serve-Sends r app_rc_end id h = record {
      counter = refl;
      order = sequence_numbers-append r.outgoing_queue_app_proxy _;
    }
    serve-Sends r app_start id h = record {
      counter = omega arith;
      order = sequence_numbers-append r.outgoing_queue_app_proxy _;
    }
    serve-Sends r app_stop id h = record {
      counter = omega arith;
      order = sequence_numbers-append r.outgoing_queue_app_proxy _;
    }
    serve-Sends r app_pause id h = record {
      counter = omega arith;
      order = sequence_numbers-append r.outgoing_queue_app_proxy _;
    }
    serve-Sends r app_spot id h = record {
      counter = omega arith;
      order = sequence_numbers-append r.outgoing_queue_app_proxy _;
    }
    serve-Sends r app_charge id h = record {
      counter = omega arith;
      order = sequence_numbers-append r.outgoing_queue_app_proxy _;
    }

    abbrev pub GoOn : List (Call F × ℕ) → Type 0
    GoOn [] = Unit
    GoOn ((c, id) ∷ rest) = GoesOn c × GoOn rest

    serve_all-Sends :
        (calls : List (Call F × ℕ)) (r : Robot F)
        → GoOn calls
        → Sends r (count_numbered calls) (serve_all finite r calls)
    unfolding serve_all
    serve_all-Sends [] r h = record { counter = omega arith; order = sym (append-nil _) }
    serve_all-Sends ((c, id) ∷ rest) r h =
        let first = serve-Sends r c id h.0 in
        let next = serve_all-Sends rest (serve finite r c id).0 h.1 in
        record {
          counter = omega (arith, first.counter, next.counter);
          order =
              next.order
              ∙ (ap
                    (λ l.
                      l
                      ++ count_from (serve finite r c id).0.app_rc_sequence_number
                          (count_numbered rest))
                    first.order
                  ∙ (append_assoc (sequence_numbers r.outgoing_queue_app_proxy)
                        (count_from r.app_rc_sequence_number (numbered c)) _
                      ∙ ap (λ l. sequence_numbers r.outgoing_queue_app_proxy ++ l)
                          (ap
                              (λ n.
                                count_from r.app_rc_sequence_number (numbered c)
                                ++ count_from n (count_numbered rest))
                              first.counter
                            ∙ count_from-append r.app_rc_sequence_number (numbered c)
                                (count_numbered rest))));
        }

    -- If each call begins after the one before it has returned, as they do in this list, then after
    -- the call that starts the remote control the moves and ends that follow are sent with
    -- the numbers 1, 2, 3, … in order, whatever other commands stand between them, as long as the
    -- speeds can be marshalled.
    pub remote_control_counts :
        (r : Robot F) (id : ℕ) (calls : List (Call F × ℕ))
        → GoOn calls
        → sequence_numbers
            (serve_all finite r ((app_rc_start, id) ∷ calls)).outgoing_queue_app_proxy
          ≡ sequence_numbers r.outgoing_queue_app_proxy ++ count_from 1 (count_numbered calls)
    unfolding serve_all numbers_of sequence_numbers
    remote_control_counts r id calls h =
        (serve_all-Sends calls (serve finite r app_rc_start id).0 h).order
        ∙ (unfold serve in
            ap (λ l. l ++ count_from 1 (count_numbered calls))
              (sequence_numbers-append r.outgoing_queue_app_proxy _ ∙ append-nil _))
