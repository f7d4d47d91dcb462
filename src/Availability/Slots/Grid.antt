-- ===== src/Availability/Slots/Grid.antt =====
-- slot-engine.ts: the grid of slots of a day.
use micro_saas_api.Base.{
  ℕ, zero, suc, ◌+◌, ◌≡◌, ◌≤◌, ◌↔◌, inl, inr, refl, sym, subst, ap, ◌∙◌, true, false, ◌||◌, List,
  [], ◌∷◌, filter, Member, here, there, Bool-cases, arith, ltb, leb,
}
use micro_saas_api.Availability.Bookings.{Booking, is_active}
use micro_saas_api.Availability.Slots.{
  TimeSlot, ScheduleWindow, Zone, slot_at, taken, slots_from, generate_available_slots,
}

-- A local time that is a whole number of slots after another.
pub data OnGrid (minutes : ℕ) : ℕ → ℕ → Type 0 where
  first : {a b : ℕ} → a ≡ b → OnGrid minutes a b
  later : {a b : ℕ} → OnGrid minutes (a + minutes) b → OnGrid minutes a b

OnGrid-le : (minutes : ℕ) {a b : ℕ} → OnGrid minutes a b → a ≤ b
OnGrid-le minutes (first e) = omega (arith, e)
OnGrid-le minutes (later g) = omega (arith, OnGrid-le minutes g)

module _ (zone : Zone) where
  -- A slot of the day's grid, within the opening hours, that overlaps no booking of a list.
  pub record IsFree (minutes start_min end_min : ℕ) (bookings : List Booking) (s : TimeSlot)
      (cursor : ℕ) : Type 0 where
    pub on_grid : OnGrid minutes start_min cursor
    pub in_hours : cursor + minutes ≤ end_min
    pub same : s ≡ slot_at zone minutes cursor
    pub untaken : taken zone bookings s ≡ false

  slots_from-IsFree :
      (fuel cursor end_min minutes : ℕ) (bookings : List Booking) (s : TimeSlot)
      → Member s (slots_from zone fuel cursor end_min minutes bookings)
      → (c : ℕ) × IsFree minutes cursor end_min bookings s c
  unfolding slots_from
  slots_from-IsFree zero cursor end_min minutes bookings s m = elim m [ ]
  slots_from-IsFree (suc fuel) cursor end_min minutes bookings s m =
      elim (Bool-cases (leb (cursor + minutes) end_min)) [
        | inr e ↦ none_left (simp (slots_from, e) at m)
        | inl e ↦ elim (Bool-cases (taken zone bookings (slot_at zone minutes cursor))) [
          | inl t ↦ sooner (
              slots_from-IsFree fuel (cursor + minutes) end_min minutes bookings s
                (simp (slots_from, e, t) at m))
          | inr t ↦
              split e t (slots_from-IsFree fuel (cursor + minutes) end_min minutes bookings s)
                (simp (slots_from, e, t) at m)
        ]
      ]
    where
      none_left : Member s [] → (c : ℕ) × IsFree minutes cursor end_min bookings s c
      none_left n = elim n [ ]

      sooner :
          (c : ℕ) × IsFree minutes (cursor + minutes) end_min bookings s c
          → (c : ℕ) × IsFree minutes cursor end_min bookings s c
      sooner (c, f) = (
        c,
        record {
          on_grid = later f.on_grid;
          in_hours = f.in_hours;
          same = f.same;
          untaken = f.untaken;
        },
      )

      split :
          leb (cursor + minutes) end_min ≡ true
          → taken zone bookings (slot_at zone minutes cursor) ≡ false
          → (Member s (slots_from zone fuel (cursor + minutes) end_min minutes bookings)
              → (c : ℕ) × IsFree minutes (cursor + minutes) end_min bookings s c)
          → Member s (
              slot_at zone minutes cursor
              ∷ slots_from zone fuel (cursor + minutes) end_min minutes bookings)
          → (c : ℕ) × IsFree minutes cursor end_min bookings s c
      split e t rec (here same) = (
        cursor,
        record {
          on_grid = first refl;
          in_hours = ground (arith, e);
          same = sym same;
          untaken = subst (λ z. taken zone bookings z ≡ false) same t;
        },
      )
      split e t rec (there n) = sooner (rec n)

  IsFree-slots_from :
      (fuel cursor end_min minutes : ℕ) (bookings : List Booking) (s : TimeSlot) (c : ℕ)
      → 1 ≤ minutes
      → end_min ≤ cursor + fuel
      → IsFree minutes cursor end_min bookings s c
      → Member s (slots_from zone fuel cursor end_min minutes bookings)
  unfolding slots_from
  IsFree-slots_from zero cursor end_min minutes bookings s c pos le f =
      absurd (omega (arith, f.in_hours, OnGrid-le minutes f.on_grid))
  IsFree-slots_from (suc fuel) cursor end_min minutes bookings s c pos le f = go f.on_grid (λ g.
      IsFree-slots_from fuel (cursor + minutes) end_min minutes bookings s c pos
        (omega (arith, le, pos))
        (record { on_grid = g; in_hours = f.in_hours; same = f.same; untaken = f.untaken }))
    where
      go :
          OnGrid minutes cursor c
          → (OnGrid minutes (cursor + minutes) c
              → Member s (slots_from zone fuel (cursor + minutes) end_min minutes bookings))
          → Member s (slots_from zone (suc fuel) cursor end_min minutes bookings)
      go (first e) rec =
          let free : taken zone bookings (slot_at zone minutes cursor) ≡ false =
            subst (λ z. taken zone bookings z ≡ false) (f.same ∙ ap (slot_at zone minutes) (sym e))
              f.untaken in
          let fits : leb (cursor + minutes) end_min ≡ true = ground (arith, f.in_hours, e) in
          simp (fits, free) (here (sym (f.same ∙ ap (slot_at zone minutes) (sym e))))
      go (later g) rec =
          let fits : leb (cursor + minutes) end_min ≡ true =
            ground (arith, f.in_hours, OnGrid-le minutes g) in
          elim (Bool-cases (taken zone bookings (slot_at zone minutes cursor))) [
            | inl t ↦ simp (fits, t) (rec g)
            | inr t ↦ simp (fits, t) (there (rec g))
          ]

  pub generated-IsFree :
      (schedule : ScheduleWindow) (bookings : List Booking) (s : TimeSlot)
      → Member s (generate_available_slots zone schedule bookings)
      → (c : ℕ) × IsFree schedule.slot_minutes schedule.start_min schedule.end_min
          (filter (λ b. is_active b.status) bookings)
          s
          c
  unfolding generate_available_slots
  generated-IsFree schedule bookings s m =
      elim (Bool-cases (ltb schedule.slot_minutes 1 || leb schedule.end_min schedule.start_min)) [
        | inr e ↦
            slots_from-IsFree schedule.end_min schedule.start_min schedule.end_min
              schedule.slot_minutes _ s (simp (generate_available_slots, e) at m)
        | inl e ↦ nothing (simp (generate_available_slots, e) at m)
      ]
    where
      nothing :
          Member s []
          → (c : ℕ) × IsFree schedule.slot_minutes schedule.start_min schedule.end_min
              (filter (λ b. is_active b.status) bookings)
              s
              c
      nothing n = elim n [ ]

  IsFree-generated :
      (schedule : ScheduleWindow) (bookings : List Booking) (s : TimeSlot) (c : ℕ)
      → 1 ≤ schedule.slot_minutes
      → IsFree schedule.slot_minutes schedule.start_min schedule.end_min
          (filter (λ b. is_active b.status) bookings)
          s
          c
      → Member s (generate_available_slots zone schedule bookings)
  unfolding generate_available_slots
  IsFree-generated schedule bookings s c pos f =
      elim (Bool-cases (ltb schedule.slot_minutes 1 || leb schedule.end_min schedule.start_min)) [
        | inr e ↦ simp e (
            IsFree-slots_from schedule.end_min schedule.start_min schedule.end_min
              schedule.slot_minutes _ s c pos (omega arith) f)
        | inl e ↦ absurd (ground (arith, e, pos, f.in_hours, OnGrid-le _ f.on_grid))
      ]

  -- For slots of a minute or more the engine offers exactly the slots of the grid from the opening
  -- time that end by the closing time and overlap no active booking: it leaves none out.
  pub generate_available_slots-IsFree :
      (schedule : ScheduleWindow) (bookings : List Booking) (s : TimeSlot)
      → 1 ≤ schedule.slot_minutes
      → Member s (generate_available_slots zone schedule bookings)
        ↔ (c : ℕ) × IsFree schedule.slot_minutes schedule.start_min schedule.end_min
            (filter (λ b. is_active b.status) bookings)
            s
            c
  generate_available_slots-IsFree schedule bookings s pos =
      (generated-IsFree schedule bookings s, λ (c, f). IsFree-generated schedule bookings s c pos f)
