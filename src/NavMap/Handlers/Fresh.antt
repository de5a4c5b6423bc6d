-- ===== src/NavMap/Handlers/Fresh.antt =====
-- The handlers of pkg/navmap/navmap.go: the buffers do not show.
use rocklet.Base.{ℕ, ◌≡◌, List, [], ◌∷◌, ◌++◌, Option, none, some, refl, sym, ap, ◌∙◌}
use mathlib.Core.List.{append-nil, append_assoc}
use rocklet.NavMap.Handlers.{
  Buffered, Response, not_found, internal_server_error, State, Event, get_png, get_jpeg, new_latest,
  unbuffered, png_content, jpeg_content, handle_png, handle_jpeg, encoded_png, encoded_jpeg, serve,
  serve_all,
}

abbrev pub or_error : (List ℕ → Response) → Option (List ℕ) → Response
or_error f none = internal_server_error
or_error f (some bytes) = f bytes

module _ {I : Type 0} (encode_png encode_jpeg : I → Option (List ℕ)) where
  abbrev png_of : Option I → Response
  png_of none = not_found
  png_of (some image) = or_error png_content (encode_png image)

  abbrev jpeg_of : Option I → Response
  jpeg_of none = not_found
  jpeg_of (some image) = or_error jpeg_content (encode_jpeg image)

  -- What a server without buffers answers, which encodes the latest image anew for each request.
  abbrev pub fresh : Option I → List (Event I) → List Response
  fresh latest [] = []
  fresh latest (get_png ∷ es) = png_of latest ∷ fresh latest es
  fresh latest (get_jpeg ∷ es) = jpeg_of latest ∷ fresh latest es
  fresh latest (new_latest image ∷ es) = fresh (some image) es

  abbrev pub image_of : Option (Buffered I) → Option I
  image_of none = none
  image_of (some m) = some m.image

  -- A buffer holds the encoded image.
  abbrev Holds : (I → Option (List ℕ)) → I → Option (List ℕ) → Type 0
  Holds encode image none = Unit
  Holds encode image (some bytes) = encode image ≡ some bytes

  abbrev pub IsBuffered : Option (Buffered I) → Type 0
  IsBuffered none = Unit
  IsBuffered (some m) = Holds encode_png m.image m.png_buf × Holds encode_jpeg m.image m.jpeg_buf

  pub png-IsBuffered :
      (m : Buffered I) (o : Option (List ℕ))
      → Holds encode_png m.image o
      → IsBuffered (some m)
      → IsBuffered (some (handle_png encode_png encode_jpeg m o).0)
        × ((handle_png encode_png encode_jpeg m o).0.image ≡ m.image)
        × ((handle_png encode_png encode_jpeg m o).1 ≡ or_error png_content (encode_png m.image))
  unfolding handle_png
  png-IsBuffered m (some bytes) held h = (h, refl, rw held refl)
  png-IsBuffered m none held h = once (encode_png m.image) refl
    where
      once :
          (e : Option (List ℕ))
          → encode_png m.image ≡ e
          → IsBuffered (some (encoded_png encode_png encode_jpeg m e).0)
            × ((encoded_png encode_png encode_jpeg m e).0.image ≡ m.image)
            × ((encoded_png encode_png encode_jpeg m e).1
                ≡ or_error png_content (encode_png m.image))
      once none eq = (h, refl, rw eq refl)
      once (some bytes) eq = ((eq, h.1), refl, rw eq refl)

  pub jpeg-IsBuffered :
      (m : Buffered I) (o : Option (List ℕ))
      → Holds encode_jpeg m.image o
      → IsBuffered (some m)
      → IsBuffered (some (handle_jpeg encode_png encode_jpeg m o).0)
        × ((handle_jpeg encode_png encode_jpeg m o).0.image ≡ m.image)
        × ((handle_jpeg encode_png encode_jpeg m o).1 ≡ or_error jpeg_content (encode_jpeg m.image))
  unfolding handle_jpeg
  jpeg-IsBuffered m (some bytes) held h = (h, refl, rw held refl)
  jpeg-IsBuffered m none held h = once (encode_jpeg m.image) refl
    where
      once :
          (e : Option (List ℕ))
          → encode_jpeg m.image ≡ e
          → IsBuffered (some (encoded_jpeg encode_png encode_jpeg m e).0)
            × ((encoded_jpeg encode_png encode_jpeg m e).0.image ≡ m.image)
            × ((encoded_jpeg encode_png encode_jpeg m e).1
                ≡ or_error jpeg_content (encode_jpeg m.image))
      once none eq = (h, refl, rw eq refl)
      once (some bytes) eq = ((h.0, eq), refl, rw eq refl)

  abbrev served : State I → List (Event I) → State I
  served = serve_all encode_png encode_jpeg

  one_more :
      (rs : List Response) (r r' : Response) (i i' : Option I) (es : List (Event I))
      → r ≡ r'
      → i ≡ i'
      → (rs ++ r ∷ []) ++ fresh i es ≡ rs ++ r' ∷ fresh i' es
  one_more rs r r' i i' es response same =
      ap (λ x. (rs ++ x ∷ []) ++ fresh i es) response
      ∙ (ap (λ x. (rs ++ r' ∷ []) ++ fresh x es) same ∙ append_assoc rs (r' ∷ []) (fresh i' es))

  from_state :
      (es : List (Event I)) (o : Option (Buffered I)) (rs : List Response)
      → IsBuffered o
      → (served (record { latest_map = o; responses = rs }) es).responses
        ≡ rs ++ fresh (image_of o) es
  unfolding serve_all serve
  from_state [] o rs h = sym (append-nil rs)
  from_state (new_latest image ∷ es) o rs h = from_state es (some (unbuffered image)) rs (tt, tt)
  from_state (get_png ∷ es) none rs h =
      from_state es none (rs ++ not_found ∷ []) h ∙ append_assoc rs (not_found ∷ []) (fresh none es)
  from_state (get_jpeg ∷ es) none rs h =
      from_state es none (rs ++ not_found ∷ []) h ∙ append_assoc rs (not_found ∷ []) (fresh none es)
  from_state (get_png ∷ es) (some m) rs h =
      let r = handle_png encode_png encode_jpeg m m.png_buf in
      let p = png-IsBuffered m m.png_buf h.0 h in
      from_state es (some r.0) (rs ++ r.1 ∷ []) p.0
      ∙ one_more rs r.1 (or_error png_content (encode_png m.image)) (some r.0.image) (some m.image)
          es p.2 (ap some p.1)
  from_state (get_jpeg ∷ es) (some m) rs h =
      let r = handle_jpeg encode_png encode_jpeg m m.jpeg_buf in
      let p = jpeg-IsBuffered m m.jpeg_buf h.1 h in
      from_state es (some r.0) (rs ++ r.1 ∷ []) p.0
      ∙ one_more rs r.1 (or_error jpeg_content (encode_jpeg m.image)) (some r.0.image)
          (some m.image) es p.2 (ap some p.1)

  -- Whatever sequence of requests for the PNG and the JPEG and of new latest maps is served from
  -- the start, the responses are those of a server without buffers: no request gets the image of
  -- an earlier map, an encoder's error is answered with an internal server error and not kept, and
  -- a request before the first map is not found.
  pub serve_all-fresh :
      (es : List (Event I))
      → (serve_all encode_png encode_jpeg
          (record { latest_map = none; responses = [] })
          es).responses
        ≡ fresh none es
  serve_all-fresh es = from_state es none [] tt
