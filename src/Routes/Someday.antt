-- ===== src/Routes/Someday.antt =====
-- `_cascade_project_status` from one end to the other: a project goes to Someday, and comes back.
use plain_text_gtd.Prelude.{
  ◌≡◌, ◌≢◌, refl, sym, ap, ◌∙◌, Bool, true, false, not, ◌&&◌, List, [], ◌∷◌, ◌++◌, none, some,
  Option, ◌⊎◌, inl, inr, arith, ◌==◌, text_eq, All, lookup, if◌then◌else◌, subst,
}
use plain_text_gtd.Text.{Text, rstrip, is_newline}
use plain_text_gtd.Dates.{DateTime}
use plain_text_gtd.DataTypes.{Item, ItemStatus, status_eq, someday, next, done, trashed}
use plain_text_gtd.Host.{Host}
use plain_text_gtd.Frontmatter.{Frontmatter, IsClean, IsLawful}
use plain_text_gtd.World.{M, World, Disk, pure, Result, ok, then_ok}
use plain_text_gtd.Storage.Posts.{post_of}
use plain_text_gtd.Storage.Files.{file_name, files, load_item, children_of}
use plain_text_gtd.Storage.RoundTrip.{HasDates, in_whole_seconds}
use plain_text_gtd.Storage.Writes.{load_item-dumps}
use plain_text_gtd.Storage.ReadOnly.{children_of-KeepsDisk}
use plain_text_gtd.Routes.Cascade.{
  stays_put, status_or, parked, restored, update_children, cascade_project_status,
}
use plain_text_gtd.Routes.Parking.{
  HaveValidIds, HaveDistinctFiles, IsUpdated, update_children_ok, update_children_updates,
  lookup-update_children,
}

-- The test of the way back.
abbrev pub not_parked : Item → Bool
not_parked c = not (c.status == someday)

abbrev pub is_left : Item → Bool
is_left c = stays_put c.status

All_at :
    (P : Item → Type 0) (before : List Item) (c : Item) (after : List Item)
    → All P (before ++ (c ∷ after))
    → P c
All_at P [] c after h = h.0
All_at P (d ∷ before) c after h = All_at P before c after h.1

All_of :
    (P Q : Item → Type 0)
    → ((c : Item) → P c → Q c)
    → (children : List Item) → All P children
    → All Q children
All_of P Q f [] h = tt
All_of P Q f (c ∷ children) h = (f c h.0, All_of P Q f children h.1)

-- A child that goes to Someday with its project.
abbrev pub IsMoving : ItemStatus → Type 0
IsMoving s = (s ≢ done) × (s ≢ trashed) × (s ≢ someday)

pub moves_on : (s : ItemStatus) → IsMoving s → stays_put s ≡ false
moves_on s (d, t, p) = ground arith

moves_from : (s : ItemStatus) → stays_put s ≡ false → IsMoving s
moves_from s e = (λ d. ground arith, λ d. ground arith, λ d. ground arith)

saved_status :
    (s : ItemStatus) (saved : Option ItemStatus)
    → (saved ≡ some s) ⊎ ((saved ≡ none) × (s ≡ next))
    → status_or saved next ≡ s
saved_status s saved (inl e) = rw e refl
saved_status s saved (inr (e, n)) = rw e (sym n)

differs : (s : ItemStatus) → (s == someday) ≡ false → (someday == s) ≡ false
differs s h = ground arith

-- What a cascade has done: every child that the loop does not skip has its new form in its file,
-- and every other file is as it was.
pub record Cascaded {fm : Frontmatter} (skips : Item → Bool) (updated : Item → DateTime → Item)
    (keeps_id : (c : Item) (t : DateTime) → (updated c t).id ≡ c.id) (children : List Item)
    (w : World fm) (r : Result (Unit {0}) × World fm) : Type 0 where
  pub returns : r.0 ≡ ok tt
  pub updates : All (IsUpdated skips updated keeps_id r.1) children
  pub others :
      (name : Text)
      → All (λ (c : Item). skips c ≡ false → name ≢ file_name c.id) children
      → lookup name (files r.1) ≡ lookup name (files w)

module _ {fm : Frontmatter} (h : Host) (project : Item) (w : World fm) where
  files_after_reading :
      {children : List Item} {w' : World fm}
      → children_of h project.id w ≡ (ok children, w')
      → files w' ≡ files w
  files_after_reading found =
      ap (λ (d : Disk fm). elim d.items [ none ↦ [] | some l ↦ l ])
        (sym (ap (λ r. r.1.disk) found) ∙ (children_of-KeepsDisk h project.id).at w)

  module _ (children : List Item) (w' : World fm)
      (found : children_of h project.id w ≡ (ok children, w'))
      (is_project : project.is_project ≡ true) (valid : HaveValidIds children)
      (distinct : HaveDistinctFiles children) where
    -- The tests of the cascade, and then the loop.
    cascade_runs :
        (target : ItemStatus) (loop : List Item → M fm (Unit {0}))
        → (project.status == target) ≡ false
        → ((cs : List Item)
            → (if target == someday && not (project.status == someday)
                then update_children is_left parked cs
                else if project.status == someday && not (target == someday)
                then update_children not_parked restored cs
                else pure tt)
              ≡ loop cs)
        → cascade_project_status h project target w ≡ loop children w'
    unfolding cascade_project_status
    cascade_runs target loop moves picks =
        rw (is_project, moves)
          (then_ok (children_of h project.id) _ found (ap (λ m. m w') (picks children)))

    parked_all :
        (project.status == someday) ≡ false
        → Cascaded is_left parked
            (λ c t. refl)
            children
            w
            (cascade_project_status h project someday w)
    unfolding status_eq update_children
    parked_all active =
        subst (Cascaded is_left parked (λ c t. refl) children w)
          (sym (cascade_runs someday (update_children is_left parked) active (λ cs. rw active)))
          (record {
            returns = update_children_ok is_left parked (λ c t. refl) children w' valid;
            updates =
                update_children_updates is_left parked (λ c t. refl) children w' valid distinct;
            others = λ name apart.
                lookup-update_children is_left parked (λ c t. refl) children w' name valid apart
                ∙ ap (lookup name) (files_after_reading found);
          })

    restored_all :
        (target : ItemStatus)
        → project.status ≡ someday
        → (target == someday) ≡ false
        → Cascaded not_parked restored
            (λ c t. refl)
            children
            w
            (cascade_project_status h project target w)
    unfolding status_eq update_children
    restored_all target away leaves =
        subst (Cascaded not_parked restored (λ c t. refl) children w)
          (sym (
            cascade_runs target (update_children not_parked restored)
              (rw away (differs target leaves)) (λ cs. rw (away, leaves))))
          (record {
            returns = update_children_ok not_parked restored (λ c t. refl) children w' valid;
            updates =
                update_children_updates not_parked restored (λ c t. refl) children w' valid
                  distinct;
            others = λ name apart.
                lookup-update_children not_parked restored (λ c t. refl) children w' name valid
                  apart
                ∙ ap (lookup name) (files_after_reading found);
          })

    -- When a project goes to Someday, the cascade returns, and it writes each of its children that
    -- is not done, trashed or in Someday already: with the status Someday, its own status saved, and
    -- nothing else changed but the time of the change. Every file that is of no such child stays as it
    -- was. The children are those that are listed; they have valid ids and files of their own.
    pub cascade_parks :
        (project.status == someday) ≡ false
        → (before : List Item) (c : Item) (after : List Item) → children ≡ before ++ (c ∷ after)
        → IsMoving c.status
        → ((cascade_project_status h project someday w).0 ≡ ok tt)
          × ((t : DateTime) × (lookup
                  (file_name c.id)
                  (files (cascade_project_status h project someday w).1)
                ≡ some (
                    fm.dumps (
                      post_of (record c {
                        status = someday;
                        prev_status = some c.status;
                        updated_at = t;
                      })))))
          × ((name : Text)
              → All (λ (d : Item). IsMoving d.status → name ≢ file_name d.id) children
              → lookup name (files (cascade_project_status h project someday w).1)
                ≡ lookup name (files w))
    cascade_parks active before c after split moving =
        let all = parked_all active in
        (
          all.returns,
          All_at _ before c after (subst (All _) split all.updates) (moves_on c.status moving),
          λ name apart.
              all.others name
                (All_of _ _ (λ d other e. other (moves_from d.status e)) children apart),
        )

    -- When a project leaves Someday, the cascade returns, and it writes each of its children that is
    -- in Someday: with the status that was saved, or Next where none was, and nothing saved any more.
    -- The children have valid ids and files of their own.
    pub cascade_restores :
        (target : ItemStatus)
        → project.status ≡ someday
        → (target == someday) ≡ false
        → (before : List Item) (c : Item) (after : List Item) → children ≡ before ++ (c ∷ after)
        → c.status ≡ someday
        → (s : ItemStatus) → (c.prev_status ≡ some s) ⊎ ((c.prev_status ≡ none) × (s ≡ next))
        → ((cascade_project_status h project target w).0 ≡ ok tt)
          × (t : DateTime) × (lookup
                (file_name c.id)
                (files (cascade_project_status h project target w).1)
              ≡ some (
                  fm.dumps (post_of (record c { status = s; prev_status = none; updated_at = t }))))
    cascade_restores target away leaves before c after split there s saved =
        let all = restored_all target away leaves in
        let (t, held) =
          All_at _ before c after (subst (All _) split all.updates)
            (unfold status_eq in rw there) in
        (
          all.returns,
          t,
          held
              ∙ ap
                  (λ r. some (
                    fm.dumps
                      (post_of (record c { status = r; prev_status = none; updated_at = t }))))
                  (saved_status s c.prev_status saved),
        )

-- A child that was parked and is read back has, once restored, everything that it had before, with
-- its times in whole seconds, its body without line feeds at the end, and the new time of change:
-- above all its status. It had a date of its own in every time, a clean body, and no saved status.
pub restored-load_item-parked :
    {fm : Frontmatter} (h : Host) (lawful : IsLawful fm) (c : Item) (t t' : DateTime) (w : World fm)
    → HasDates (parked c t)
    → IsClean (rstrip is_newline c.body)
    → c.prev_status ≡ none
    → (p : Item) × (load_item h c.id (fm.dumps (post_of (parked c t))) w ≡ (ok p, w))
      × (restored p t' ≡ record (in_whole_seconds c (rstrip is_newline c.body)) { updated_at = t' })
restored-load_item-parked h lawful c t t' w dated clean fresh = (
  in_whole_seconds (parked c t) (rstrip is_newline c.body),
  load_item-dumps h lawful c.id (parked c t) w dated clean,
  ap
      (λ o. record (in_whole_seconds c (rstrip is_newline c.body)) {
        updated_at = t';
        prev_status = o;
      })
      (sym fresh),
)
