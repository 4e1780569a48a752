-- ===== src/Server/Served.antt =====
-- What a started server answers.
use remote_write_inspector.Prelude.{
  ℕ, ◌-◌, ◌^◌, ◌<◌, ◌≡◌, refl, sym, ap, subst, inl, inr, Bool, true, List, [], ◌∷◌, Option, none,
  some, arith, ltb, Bool-cases, Option-cases, ◌∙◌, false,
}
use remote_write_inspector.Prelude.Bytes.{Bytes, codes, bytes_eq}
use remote_write_inspector.Prelude.Int.{ℤ, pos, pos_part}
use remote_write_inspector.Config.Types.{Config}
use remote_write_inspector.Config.Normal.{Positive, Normal, normalize-Normal}
use remote_write_inspector.Capture.{Matcher}
use remote_write_inspector.Identity.Types.{IdentitySet}
use remote_write_inspector.Identity.{resolve}
use remote_write_inspector.Metrics.Registry.{Registry}
use remote_write_inspector.Inspector.Types.{Environment}
use remote_write_inspector.Inspector.Labels.{valid_labels}
use remote_write_inspector.Inspector.Start.{Started}
use remote_write_inspector.Inspector.Ready.{Ready, new_inspector-Ready}
use remote_write_inspector.Inspector.Made.{new_inspector-Made}
use remote_write_inspector.Server.Receive.{answer, Decoders, Response, Receiver, receive_http}
use remote_write_inspector.Server.Answers.{payload, has_payload}
use remote_write_inspector.Server.Total.{receive_http-Answered}
use remote_write_inspector.Server.Start.{
  Handler, metrics_handler, ok_handler, receive_handler, HttpServer, routes, new_server, server_of,
}
use remote_write_inspector.Server.Started.{new_server-Inspector}
use remote_write_inspector.Server.Serving.{HttpRequest, handler_of, idle, handle, serve, serve_all}
use remote_write_inspector.Server.Expected.{
  may_handle, may_answer, own_status, AllMay, AllPlain, may_handle-may_answer, may_answer_own,
  metrics_path, result_answer,
}

module _ {F : Type 0} (env : Environment) (decoders : Decoders) (trim_space : Bytes → Bytes)
    (cfg : Config F) (ids : IdentitySet) (limit capacity : ℕ) (bound : limit < 2 ^ 63 - 1)
    (limited : cfg.max_body_bytes ≡ pos limit) (room : cfg.max_in_flight_requests ≡ pos capacity)
    (some_room : 0 < capacity) (mux_answer : Bytes → Bytes → Option ℕ)
    (passes : (method path : Bytes) (h : Handler)
      → handler_of routes path ≡ some h
      → mux_answer method path ≡ none) where
  -- Between requests nothing is in flight.
  abbrev Idle : Receiver F → Type 0
  Idle s = Ready cfg ids s.inspector × (s.in_flight ≡ 0)

  receive_serves :
      (r : HttpRequest) (s : Receiver F)
      → Idle s
      → valid_labels (resolve trim_space r.arrival.header ids).values ≡ true
      → (s' : Receiver F) × (response : Response) × (receive_http env r.reading decoders trim_space
            r.arrival s
          ≡ some (s', response))
        × Idle s'
        × (may_handle receive_handler r.arrival.method
              (has_payload (payload decoders limit r.arrival.body))
              r.metrics_status
              response.status
            ≡ true)
  unfolding may_handle receive_http
  receive_serves r s (ready, none_in) valid =
      elim (Bool-cases (bytes_eq r.arrival.method (codes "POST"))) [
        | inr other ↦ (s, answer 405, rw other refl, (ready, none_in), rw other refl)
        | inl post ↦
            let (s', response, result, run, same, admitted, answered) =
              receive_http-Answered env r.reading decoders trim_space r.arrival cfg ids valid limit
                capacity s ready limited bound room (omega arith) post in
            let free : ltb s.in_flight capacity ≡ true = ground arith in
            let shown = result_answer result (ground arith) in
            (
              s',
              response,
              run,
              (answered.ready, same ∙ none_in),
              ground (arith, answered.inspected, answered.status_told, shown),
            )
      ]

  handle_serves :
      (h : Handler) (r : HttpRequest) (s : Receiver F)
      → Idle s
      → handler_of routes r.path ≡ some h
      → bytes_eq r.path (codes "/metrics") ≡ false
      → valid_labels (resolve trim_space r.arrival.header ids).values ≡ true
      → (s' : Receiver F) × (response : Response) × (handle env decoders trim_space mux_answer
            (some h)
            r
            s
          ≡ some (s', response))
        × Idle s'
        × (may_handle h r.arrival.method
              (has_payload (payload decoders limit r.arrival.body))
              r.metrics_status
              response.status
            ≡ true)
  unfolding handle may_handle
  handle_serves metrics_handler r s q e other valid = absurd (ground (arith, metrics_path r.path e))
  handle_serves ok_handler r s q e other valid = (s, answer 200, refl, q, refl)
  handle_serves receive_handler r s q e other valid = receive_serves r s q valid

  serve_serves :
      (r : HttpRequest) (s : Receiver F)
      → Idle s
      → bytes_eq r.path (codes "/metrics") ≡ false
      → valid_labels (resolve trim_space r.arrival.header ids).values ≡ true
      → (s' : Receiver F) × (response : Response) × (serve env decoders trim_space mux_answer routes
            r s
          ≡ some (s', response))
        × Idle s'
        × (may_answer r.path r.arrival.method
              (has_payload (payload decoders limit r.arrival.body))
              r.metrics_status
              (own_status (mux_answer r.arrival.method r.path))
              response.status
            ≡ true)
  unfolding serve handle own_status
  serve_serves r s q other valid = elim (Option-cases (handler_of routes r.path)) [
    | inr (h, e) ↦
        let (s', response, run, q', may) = handle_serves h r s q e other valid in
        (
          s',
          response,
          rw (serve, passes r.arrival.method r.path h e) (rw e run),
          q',
          may_handle-may_answer r.path r.arrival.method _ r.metrics_status _ response.status h e
              may,
        )
    | inl e ↦
        let own =
          may_answer_own r.path r.arrival.method
            (has_payload (payload decoders limit r.arrival.body)) r.metrics_status
            (own_status (mux_answer r.arrival.method r.path)) e in
        let answers_own = λ (o : Option ℕ) (m : mux_answer r.arrival.method r.path ≡ o).
          subst
            (λ status.
              may_answer r.path r.arrival.method
                (has_payload (payload decoders limit r.arrival.body)) r.metrics_status
                (own_status (mux_answer r.arrival.method r.path)) status
              ≡ true)
            (ap own_status m) own in
        elim (Option-cases (mux_answer r.arrival.method r.path)) [
          | inr (status, m) ↦ (s, answer status, rw (serve, m) refl, q, answers_own _ m)
          | inl m ↦ (s, answer 404, rw (serve, m) (rw e refl), q, answers_own _ m)
        ]
  ]

  serve_all_serves :
      (rs : List HttpRequest) (s : Receiver F)
      → Idle s
      → AllPlain trim_space ids rs
      → (s' : Receiver F) × (responses : List Response) × (serve_all env decoders trim_space
            mux_answer routes rs s
          ≡ some (s', responses))
        × Idle s'
        × AllMay mux_answer decoders limit rs responses
  unfolding serve_all
  serve_all_serves [] s q plain = (s, [], refl, q, tt)
  serve_all_serves (r ∷ rs) s q (other, valid, plain) =
      let (s1, response, run, q1, may) = serve_serves r s q other valid in
      let (s2, responses, run', q2, all) = serve_all_serves rs s1 q1 plain in
      (s2, response ∷ responses, rw run (rw run' refl), q2, (may, all))

Positive-pos_part : (n : ℤ) → Positive n → (n ≡ pos (pos_part n)) × (0 < pos_part n)
Positive-pos_part n h = ground arith

module _ (registry : Registry) {F : Type 0} (rate : F → Bool) (config : Config F)
    (matchers : Option (List Matcher)) (started : Started) (env : Environment) (decoders : Decoders)
    (trim_space : Bytes → Bytes) (mux_answer : Bytes → Bytes → Option ℕ) where
  open registry use {Reg}

  -- A server that `NewServer` returns, with a limit of the body below the greatest int64, and
  -- behind a multiplexer that passes on every request for a path of its routes, answers any
  -- requests that come one after the other, for other paths than `/metrics` and with identity
  -- values that are valid UTF-8, without a panic: each with the status that its path, its method
  -- and its body call for, and where its path is not one of the routes with the multiplexer's own
  -- answer, or else 404. Afterwards no request is in flight, and the inspector is ready.
  pub new_server-serves :
      (reg : Option Reg) (reg' : Reg) (server : HttpServer F) (rs : List HttpRequest)
      → new_server registry rate config matchers started reg ≡ inr (reg', server)
      → pos_part server.inspector.cfg.max_body_bytes < 2 ^ 63 - 1
      → ((method path : Bytes) (h : Handler)
          → handler_of routes path ≡ some h
          → mux_answer method path ≡ none)
      → AllPlain trim_space server.inspector.ids rs
      → (s : Receiver F) × (responses : List Response) × (serve_all env decoders trim_space
            mux_answer server.handlers rs
            (idle server)
          ≡ some (s, responses))
        × (s.in_flight ≡ 0)
        × Ready server.inspector.cfg server.inspector.ids s.inspector
        × AllMay mux_answer decoders (pos_part server.inspector.cfg.max_body_bytes) rs responses
  unfolding idle
  new_server-serves reg reg' server rs h bound passes plain =
      let (reg1, made, whole) =
        new_server-Inspector registry rate config matchers started reg reg' server h in
      let i = server.inspector in
      let m = new_inspector-Made registry.register rate config matchers started reg1 reg' i made in
      let n = normalize-Normal rate config m.cfg m.normalized in
      let same : i.cfg ≡ m.cfg = ap (λ j. j.cfg) m.made in
      let normal : Normal rate i.cfg = subst (Normal rate) (sym same) n in
      let ready =
        new_inspector-Ready registry.register rate config matchers started reg1 reg' i made in
      let (limited, _) = Positive-pos_part i.cfg.max_body_bytes normal.max_body_bytes in
      let (room, some_room) =
        Positive-pos_part i.cfg.max_in_flight_requests normal.max_in_flight_requests in
      let (s, responses, run, (q, idle'), all) =
        serve_all_serves env decoders trim_space i.cfg i.ids (pos_part i.cfg.max_body_bytes)
          (pos_part i.cfg.max_in_flight_requests) bound limited room some_room mux_answer passes rs
          (idle server) (ready, refl) plain in
      let same_routes : server.handlers ≡ routes =
        ap (λ t. t.handlers) whole ∙ unfold server_of in refl in
      (
        s,
        responses,
        ap (λ handlers. serve_all env decoders trim_space mux_answer handlers rs (idle server))
              same_routes
            ∙ run,
        idle',
        q,
        all,
      )
