-- ===== src/Main/Session.antt =====
-- A whole run of the program, from its options to the last message.
use nw_proj.Base.{
  ℕ, ◌≡◌, refl, ap, ◌∙◌, true, false, Option, none, some, List, [], ◌∷◌, ◌++◌, map, All,
}
use nw_proj.Text.{Text}
use nw_proj.Instance.{RtEntry, Sr, Outcome, ok, crash, out_of_fuel, ◌>>=◌, Iface, Frame}
use nw_proj.Run.{started}
use nw_proj.Vns.{framed}
use nw_proj.Routing.Load.{Fields}
use nw_proj.Routing.Load.Table.{Route, IsRoute, entry_of, file_of, sr_load_rt-file_of}
use nw_proj.Server.{serve, Loop, running, finished}
use nw_proj.Server.Receive.{Event}
use nw_proj.Server.Framing.{Carries}
use nw_proj.Server.Read.{Answers, read_loop}
use nw_proj.Server.Session.{Sent, IsReceivable, stream_of, message_sent, read_loop-serve}
use nw_proj.Connect.{has_template}
use nw_proj.Connect.Handshake.{
  IsGranted, IsAuthRequest, IsAuthStatus, sr_connect_to_server-connected,
}
use nw_proj.Main.{
  Settings, default_settings, read_options, client_of, sr_init, sr_init_instance, Exit, exited,
  serving, exit_of, MainAnswers, sr_load_rt_wrap, run_session, start_session, main, load_first,
  opens_logfile,
}

-- What becomes of the program when the loop was left, and when it was not.
abbrev pub end_of : Loop → Exit
end_of (running sr) = serving sr
end_of (finished sr) = exited 0 sr

exit_of-end_of : (o : Outcome Loop) → (o >>= λ l. ok (exit_of l)) ≡ (o >>= λ l. ok (end_of l))
unfolding exit_of
exit_of-end_of (ok (running sr)) = refl
exit_of-end_of (ok (finished sr)) = refl
exit_of-end_of (crash e) = refl
exit_of-end_of out_of_fuel = refl

module _ (inet_aton : Text → Option ℕ) where
  sr_load_rt_wrap-file_of :
      (arrays : Fields) (r : Route) (rs : List Route) (sr : Sr) (k : Sr → Outcome Exit)
      → All (IsRoute inet_aton) (r ∷ rs)
      → sr_load_rt_wrap inet_aton arrays (some (file_of (r ∷ rs))) sr k
        ≡ k (record sr { routing_table = map entry_of (r ∷ rs) })
  unfolding sr_load_rt_wrap
  sr_load_rt_wrap-file_of arrays r rs sr k h =
      rw (sr_load_rt-file_of inet_aton arrays r rs sr.routing_table h, sr_load_rt_wrap) refl

  module _ (sha1 : List ℕ → Option (List ℕ)) (fuel : ℕ) where
    -- The server's side of a session, and what the system must grant: there is no log file, the
    -- table's file holds the same routes both times it is read, and the session is authenticated.
    pub record IsSession (os : MainAnswers) (s : Settings) (r : Route) (rs : List Route)
        (request status : List ℕ) (ss : List Sent) : Type 0 where
      pub no_template : s.template ≡ none
      pub no_log : s.logfile ≡ none
      pub file : os.files s.rtable ≡ some (file_of (r ∷ rs))
      pub later_file : os.later_files s.rtable ≡ some (file_of (r ∷ rs))
      pub routes : All (IsRoute inet_aton) (r ∷ rs)
      pub granted : IsGranted os.connect
      pub asked :
          IsAuthRequest sha1
            (client_of os.login s)
            (record { body = request; answers = os.connect.auth_request })
      pub confirmed :
          IsAuthStatus sha1
            (client_of os.login s)
            (record { body = status; answers = os.connect.auth_status })
      pub session : os.session ≡ map (λ (m : Sent). m.answers) ss
      pub receivable : All IsReceivable ss

    -- From the second reading of the table on.
    abbrev reading : MainAnswers → Settings → List Event → Sr → Outcome Exit
    reading os s es sr =
        read_loop sha1 (client_of os.login s).user fuel os.session es (sr_init sr) >>= λ l.
        ok (exit_of l)

    init-started :
        (sr : Sr) (table : List RtEntry)
        → sr.if_list ≡ []
        → sr.written ≡ []
        → sr_init (record sr { routing_table = table }) ≡ started [] table
    unfolding sr_init
    init-started sr table ifs sent =
        ap (λ (is : List Iface). record (started [] table) { if_list = is; written = sr.written })
          ifs
        ∙ ap (λ (fs : List Frame). record (started [] table) { written = fs }) sent

    run_session-serve :
        (os : MainAnswers) (s : Settings) (r : Route) (rs : List Route) (request status : List ℕ)
        (ss : List Sent) (sr : Sr) (es : List Event)
        → IsSession os s r rs request status ss
        → Carries es (stream_of ss)
        → sr.if_list ≡ []
        → sr.written ≡ []
        → run_session inet_aton sha1 fuel os s sr es ≡ (
            serve fuel
              (map (message_sent sha1 (client_of os.login s).user) ss)
              (started [] (map entry_of (r ∷ rs)))
            >>= λ l. ok (exit_of l))
    unfolding run_session
    run_session-serve os s r rs request status ss sr es h c ifs sent =
        let table = map entry_of (r ∷ rs) in
        let user = (client_of os.login s).user in
        ap (λ (f : Option Text). sr_load_rt_wrap inet_aton os.arrays f sr (reading os s es))
          h.later_file
        ∙ (sr_load_rt_wrap-file_of os.arrays r rs sr (reading os s es) h.routes
            ∙ ap (λ (o : Outcome Loop). o >>= λ l. ok (exit_of l))
                (ap
                    (λ (answers : List Answers).
                      read_loop sha1 user fuel answers es
                        (sr_init (record sr { routing_table = table })))
                    h.session
                  ∙ (ap
                        (λ (sr' : Sr).
                          read_loop sha1 user fuel (map (λ (m : Sent). m.answers) ss) es sr')
                        (init-started sr table ifs sent)
                      ∙ read_loop-serve sha1 user fuel ss es (started [] table) h.receivable c)))

    start_session-serve :
        (os : MainAnswers) (s : Settings) (r : Route) (rs : List Route) (request status : List ℕ)
        (ss : List Sent) (sr : Sr) (es : List Event)
        → IsSession os s r rs request status ss
        → Carries es (framed request ++ (framed status ++ stream_of ss))
        → sr.if_list ≡ []
        → sr.written ≡ []
        → start_session inet_aton sha1 fuel os s sr es ≡ (
            serve fuel
              (map (message_sent sha1 (client_of os.login s).user) ss)
              (started [] (map entry_of (r ∷ rs)))
            >>= λ l. ok (exit_of l))
    unfolding start_session
    start_session-serve os s r rs request status ss sr es h c ifs sent =
        let c' = client_of os.login s in
        let plain : has_template c' ≡ false = unfold client_of in rw h.no_template refl in
        let (left, linked, behind) =
          sr_connect_to_server-connected sha1 c' fuel os.connect request status (stream_of ss) es sr
            h.granted plain h.asked h.confirmed c in
        let no_log : opens_logfile os.opens_log s.logfile ≡ true =
          ap (opens_logfile os.opens_log) h.no_log ∙ (unfold opens_logfile in refl) in
        rw (no_log, start_session)
          (rw (linked, start_session)
            (run_session-serve os s r rs request status ss sr left h behind ifs sent))

    -- A run of the main thread, with options that name no template and no log file, on a table's file
    -- of routes, over a connection on which the server authenticates the user and then sends
    -- messages, in any pieces and with interruptions in any places, while the timeout thread makes
    -- no round: the router starts without interfaces, with the routes of the file and an empty
    -- cache, and makes of the messages what serve makes of them. The program ends with status 0 if
    -- the loop over the messages was left, is still in that loop with the same router if it was
    -- not, and crashes or needs more fuel where serve does.
    pub main-serve :
        (atoi : Text → ℕ) (os : MainAnswers) (args : List (ℕ × Text)) (s : Settings) (r : Route)
        (rs : List Route) (request status : List ℕ) (ss : List Sent) (es : List Event)
        (garbage : Sr)
        → read_options atoi args default_settings ≡ some s
        → IsSession os s r rs request status ss
        → Carries es (framed request ++ (framed status ++ stream_of ss))
        → main inet_aton sha1 fuel atoi os args es garbage ≡ (
            serve fuel
              (map (message_sent sha1 (client_of os.login s).user) ss)
              (started [] (map entry_of (r ∷ rs)))
            >>= λ l. ok (end_of l))
    unfolding main load_first
    main-serve atoi os args s r rs request status ss es garbage options h c =
        let sr = sr_init_instance garbage in
        let table = map entry_of (r ∷ rs) in
        let k = λ (sr' : Sr). start_session inet_aton sha1 fuel os s sr' es in
        rw (options, main)
          (ap (λ (t : Option Text). load_first inet_aton t os.arrays (os.files s.rtable) sr k)
              h.no_template
            ∙ (ap (λ (f : Option Text). load_first inet_aton none os.arrays f sr k) h.file
                ∙ (sr_load_rt_wrap-file_of os.arrays r rs sr k h.routes
                    ∙ start_session-serve os s r rs request status ss
                        (record sr { routing_table = table }) es h c
                        (unfold sr_init_instance in refl) (unfold sr_init_instance in refl))))
        ∙ exit_of-end_of (
            serve fuel (map (message_sent sha1 (client_of os.login s).user) ss)
              (started [] (map entry_of (r ∷ rs))))
