-- ===== src/Bot/Show.antt =====
-- The health of a monitor in the chat (bot/bot.go, handleShowMonitor).
use deping_client_service.Base.{
  Bool, Bool-cases, List, [], exists_where, false, if◌then◌else◌, inl, inr, ltb, map, not, refl,
  true, ◌&&◌, ◌++◌, ◌==◌, ◌∷◌, ◌≡◌,
}
use deping_client_service.World.{
  M, Outcome, Part, World, calm, continue, edited, first_bytes, later_faults, lift, next_fails, ok,
  panic, pure, text,
}
use deping_client_service.Bot.{Context, edit}
use deping_client_service.Bot.Handlers.{handle_show_monitor, ping_line, ping_lines, region_part}
use deping_client_service.Env.{byte_length}
use deping_client_service.PingLogs.{RecentPingRow, newest, to_recent}

-- A region that the slice of its first four bytes is too long for.
abbrev pub has_short_region : RecentPingRow → Bool
has_short_region p = not (byte_length p.geo_region == 0) && ltb (byte_length p.geo_region) 4

-- What becomes of a step that panics where `b` holds and returns a value otherwise.
abbrev pub PanicsIf : {A : Type 0} → World → Outcome A × World → Bool → Type 0
PanicsIf w p true = p ≡ (panic, w)
PanicsIf {A} w p false = (a : A) × (p ≡ (ok a, w))

region_part-PanicsIf :
    (p : RecentPingRow) (w : World)
    → PanicsIf w (lift (region_part p.geo_region) w) (has_short_region p)
unfolding region_part
region_part-PanicsIf p w = elim (Bool-cases (byte_length p.geo_region == 0)) [
  | inl none_given ↦ rw none_given (text "N/A", refl)
  | inr given ↦ elim (Bool-cases (ltb (byte_length p.geo_region) 4)) [
    | inl short ↦ rw (given, short) refl
    | inr long ↦ rw (given, long) (first_bytes 3 4 p.geo_region, refl)
  ]
]

continue-PanicsIf :
    {A B : Type 0} (w : World) (m : Outcome A × World) (f : A → M B) (a b : Bool)
    → PanicsIf w m a
    → ((x : A) → PanicsIf w (f x w) b)
    → PanicsIf w (continue m f) (if a then true else b)
continue-PanicsIf w m f true b h k = rw h refl
continue-PanicsIf w m f false b (x, h) k = rw h (k x)

map-PanicsIf :
    {A B : Type 0} (w : World) (m : Outcome A × World) (f : A → B) (b : Bool)
    → PanicsIf w m b
    → PanicsIf w (continue m (λ x. pure (f x))) b
map-PanicsIf w m f true h = rw h refl
map-PanicsIf w m f false (x, h) = rw h (f x, refl)

ping_lines-PanicsIf :
    (pings : List RecentPingRow) (w : World)
    → PanicsIf w (ping_lines pings w) (exists_where has_short_region pings)
unfolding ping_lines exists_where
ping_lines-PanicsIf [] w = ([], refl)
ping_lines-PanicsIf (p ∷ pings) w =
    let rest = exists_where has_short_region pings in
    continue-PanicsIf w _ _ (has_short_region p) rest (region_part-PanicsIf p w) λ region.
      map-PanicsIf w (ping_lines pings w) (λ lines. ping_line p region ++ lines) rest
        (ping_lines-PanicsIf pings w)

-- A handler that panics where `b` holds, and otherwise edits the message of the chat.
abbrev pub PanicsOrEdits : Context → World → Outcome (Unit {0}) × World → Bool → Type 0
PanicsOrEdits c w p true = p ≡ (panic, w)
PanicsOrEdits c w p false =
    (body : List Part) × (p ≡ (ok tt, record w { answers = edited c.chat_id body ∷ w.answers }))

edit-PanicsOrEdits :
    (c : Context) (w : World) (m : Outcome (List Part) × World) (f : List Part → List Part)
    (b : Bool)
    → next_fails w.faults ≡ false
    → later_faults w.faults ≡ w.faults
    → PanicsIf w m b
    → PanicsOrEdits c w (continue m (λ lines. edit c (f lines))) b
edit-PanicsOrEdits c w m f true works stays h = rw h refl
edit-PanicsOrEdits c w m f false works stays (lines, h) = rw (h, works, stays) (f lines, refl)

-- Where no call fails, the health of a monitor is shown by an edit of the message, unless one of its
-- five newest logs has a region of one, two or three bytes: then the handler panics and shows nothing.
pub handle_show_monitor-PanicsOrEdits :
    (c : Context) (w : World)
    → PanicsOrEdits c
        (calm w)
        (handle_show_monitor c (calm w))
        (exists_where has_short_region (map to_recent (newest c.callback_data 5 w.ping_logs)))
unfolding handle_show_monitor
handle_show_monitor-PanicsOrEdits c w =
    let pings = map to_recent (newest c.callback_data 5 w.ping_logs) in
    edit-PanicsOrEdits c (calm w) (ping_lines pings (calm w)) _
      (exists_where has_short_region pings) refl refl (ping_lines-PanicsIf pings (calm w))
