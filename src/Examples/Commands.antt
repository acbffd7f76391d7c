-- ===== src/Examples/Commands.antt =====
-- Commands of door_controller/remoteControl.c, with a table that is a list of rows.
use osdp_roger_acs.Base.{
  ℕ, ◌≡◌, ◌≢◌, refl, sym, ap, ◌∙◌, inl, inr, arith, List, [], ◌∷◌, none, some, true, false,
}
use osdp_roger_acs.Base.{Bool-cases, ◌&&◌, if◌then◌else◌, ◌⊎◌}
use osdp_roger_acs.CString.{codes}
use osdp_roger_acs.Door.{Text, text_eq, get_door_by_name}
use osdp_roger_acs.Door.Names.{text_eq_refl, text_eq-eq}
use osdp_roger_acs.Remote.{StateDb, Request, serve, answer_err, restore_rows}
use osdp_roger_acs.Remote.Commands.{unknown_cmd, asked, serve-Malformed}
use osdp_roger_acs.Remote.Replies.{serve-replies}
use osdp_roger_acs.Remote.Logs.{replies}
use osdp_roger_acs.Remote.Frame.{serve-SameDoors}
use osdp_roger_acs.Remote.Same.{SameDoors}
use osdp_roger_acs.Remote.Stored.{Represents, Table}
use osdp_roger_acs.Remote.Refinement.{serve_all, stored_after_all, restored, serve_all-restart}
use osdp_roger_acs.Remote.Restore.{StoredRow, HasRow}
use osdp_roger_acs.Examples.Data.{building}

remove : Text → Text → List StoredRow → List StoredRow
remove name mode [] = []
remove name mode ((name', mode', m) ∷ rows) =
    let rest = remove name mode rows in
    if text_eq name' name && text_eq mode' mode then rest else (name', mode', m) ∷ rest

pub table_of : StateDb (List StoredRow)
unfolding remove
table_of = record {
  insert_or_replace = λ name mode m db. (true, (name, mode, m) ∷ remove name mode db);
  delete = λ name mode db. (true, remove name mode db);
  group_concat = λ name db. none;
  rows = λ db. db;
}

kept_differs :
    (n k name mode : Text) → n ≡ name → k ≡ mode → (text_eq n name && text_eq k mode) ≡ false → ⊥
kept_differs n k name mode e f h =
    ground (arith, text_eq_refl name, text_eq_refl mode, rw e at (rw f at h))

remove-HasRow :
    (name mode name' mode' : Text) (m : ℕ) (db : List StoredRow)
    → HasRow (name', mode', m) (remove name mode db)
    → HasRow (name', mode', m) db × ((name' ≡ name) → mode' ≢ mode)
unfolding remove
remove-HasRow name mode name' mode' m [] h = absurd h
remove-HasRow name mode name' mode' m ((n, k, l) ∷ db) h =
    elim (Bool-cases (text_eq n name && text_eq k mode)) [
      | inl e ↦
          let (stored, ne) = remove-HasRow name mode name' mode' m db (rw e at h) in
          (inr stored, ne)
      | inr e ↦
          elim (rw e at h)
            as (λ h. HasRow (name', mode', m) ((n, k, l) ∷ db) × ((name' ≡ name) → mode' ≢ mode)) [
              | inl q ↦ (
                inl q,
                λ f g.
                    kept_differs n k name mode (sym (ap (λ (r : StoredRow). r.0) q) ∙ f)
                      (sym (ap (λ (r : StoredRow). r.1) q) ∙ g) e,
              )
              | inr rest ↦
                  let (stored, ne) = remove-HasRow name mode name' mode' m db rest in
                  (inr stored, ne)
            ]
    ]

remove-keeps :
    (name mode name' mode' : Text) (m : ℕ) (db : List StoredRow)
    → ((name' ≡ name) → mode' ≢ mode)
    → HasRow (name', mode', m) db
    → HasRow (name', mode', m) (remove name mode db)
unfolding remove
remove-keeps name mode name' mode' m [] ne h = absurd h
remove-keeps name mode name' mode' m ((n, k, l) ∷ db) ne h =
    elim (Bool-cases (text_eq n name && text_eq k mode)) [
      | inr e ↦ rw e (elim h [
        | inl q ↦ inl q
        | inr rest ↦ inr (remove-keeps name mode name' mode' m db ne rest)
      ])
      | inl e ↦ rw e (elim h [
        | inl q ↦
            let same_name : text_eq n name ≡ true = ground (arith, e) in
            let same_mode : text_eq k mode ≡ true = ground (arith, e) in
            absurd (
              ne (ap (λ (r : StoredRow). r.0) q ∙ text_eq-eq n name same_name)
                (ap (λ (r : StoredRow). r.1) q ∙ text_eq-eq k mode same_mode))
        | inr rest ↦ remove-keeps name mode name' mode' m db ne rest
      ])
    ]

table-insert_only :
    (name mode : Text) (m : ℕ) (db : List StoredRow) (name' mode' : Text) (m' : ℕ)
    → HasRow (name', mode', m') ((name, mode, m) ∷ remove name mode db)
    → ((name' ≡ name) × (mode' ≡ mode) × (m' ≡ m))
      ⊎ (HasRow (name', mode', m') db × ((name' ≡ name) → mode' ≢ mode))
table-insert_only name mode m db name' mode' m' (inl q) =
    inl
      (ap (λ (r : StoredRow). r.0) q, ap (λ (r : StoredRow). r.1) q, ap (λ (r : StoredRow). r.2) q)
table-insert_only name mode m db name' mode' m' (inr h) =
    inr (remove-HasRow name mode name' mode' m' db h)

rows_of-Table : Table table_of
unfolding table_of
rows_of-Table = record {
  inserted = λ n k m db. inl refl;
  insert_keeps =
      λ n k m db n' k' m' ne h. inr (remove-keeps n k n' k' m' db (λ e. absurd (ne e)) h);
  insert_only = λ n k m db n' k' m' h. table-insert_only n k m db n' k' m' h;
  delete_keeps = λ n k db n' k' m' ne h. remove-keeps n k n' k' m' db ne h;
  delete_only = λ n k db n' k' m' h. remove-HasRow n k n' k' m' db h;
}

nothing_stored : Represents (table_of.rows []) (λ name. none)
unfolding table_of
nothing_stored = record {
  to_stored = λ n k m h. absurd h;
  to_row = λ n k m e. absurd (ground (arith, e));
  modes = λ n k m e. absurd (ground (arith, e));
}

abbrev locks : Request
locks = record {
  cmd = some (codes "set");
  door = some (codes "d");
  arg1 = some (codes "lock");
  arg_x = some (codes "3");
}

abbrev frees : Request
frees = record {
  cmd = some (codes "unset");
  door = some (codes "d");
  arg1 = some (codes "unlock");
  arg_x = none;
}

found : get_door_by_name building (codes "d") ≡ some 0
unfolding get_door_by_name
found = refl

serve_all-restart_example :
    let after = serve_all table_of (locks ∷ frees ∷ []) building [] in
    ((restore_rows (table_of.rows after.1) building).doors 0).adm_disable_mask
    ≡ restored
        (stored_after_all table_of (locks ∷ frees ∷ []) building [] (λ name. none) (codes "d"))
        0
serve_all-restart_example =
    serve_all-restart table_of rows_of-Table (locks ∷ frees ∷ []) building building []
      (λ name. none) (codes "d") 0 nothing_stored found

abbrev opens : Request
opens = record {
  cmd = some (codes "open");
  door = some (codes "d");
  arg1 = some (codes "now");
  arg_x = none;
}

serve-Malformed_example : serve table_of opens building [] ≡ (answer_err (asked opens building), [])
serve-Malformed_example =
    serve-Malformed table_of opens building [] (unknown_cmd (codes "open") refl refl refl refl refl)

serve-replies_example :
    (t : Text) × (replies (serve table_of opens building []).0.log ≡ t ∷ replies building.log)
serve-replies_example = serve-replies table_of opens building []

serve-SameDoors_example : SameDoors building (serve table_of opens building []).0
serve-SameDoors_example = serve-SameDoors table_of opens building []
