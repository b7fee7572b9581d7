-- ===== src/Transfer/Flat.antt =====
-- Proofs on the downloads of the Slurm and the Compute4PUNCH managers
-- (reana_job_controller/slurmcern_job_manager.py, compute4punch_job_manager.py): what they transfer.
use mathlib.Core.List.{append-nil}
use reana_job_controller.Prelude.{
  Bool-cases, String, ap, inl, inr, one_of, refl, ◌≡◌, List, [], sym,
}
use reana_job_controller.Text.{join_path}
use reana_job_controller.Python.{◌>>◌, Action, ok}
use reana_job_controller.Ssh.{Network, State, Event, get_file, operate, makedirs, remote_list}
use reana_job_controller.Ssh.Effects.{Does, Does-pure, Does-then, picked, picked-last, AnyState}
use reana_job_controller.Transfer.{
  Entries, Node, directory, download_dir, download_item, download_items, download_output,
  download_output_directory, download_outputs, empty, enter_dir, entry, file, prune, prune_node,
  skipped_output_files, ensure_local_dir, files_of, files_of_node, got, add_local_dir,
}

module _ (net : Network) where
  mutual
    unfolding download_items download_outputs prune

    loop-pruned :
        (remote_dir local_dir : String) (items : Entries)
        → download_outputs net remote_dir local_dir items
          ≡ download_items net remote_dir local_dir (prune items)
    loop-pruned remote_dir local_dir empty = refl
    loop-pruned remote_dir local_dir (entry filename node items) =
        let rest = loop-pruned remote_dir local_dir items in
        let here =
          item-pruned (join_path remote_dir filename) (join_path local_dir filename) node in
        elim (Bool-cases (one_of filename skipped_output_files)) [
          | inl skipped ↦ rw skipped rest
          | inr kept ↦ rw (kept, here, rest) refl
        ]

    item-pruned :
        (remote_path local_path : String) (node : Node)
        → download_output net remote_path local_path node
          ≡ download_item net remote_path local_path (prune_node node)
    item-pruned remote_path local_path file = refl
    item-pruned remote_path local_path (directory items) =
        ap (λ (next : Action State (Unit {0})). enter_dir net remote_path local_path >> next)
          (loop-pruned remote_path local_path items)

-- For any tree and any answers of the network, failures included, the Compute4PUNCH download does
-- exactly what the Slurm download does with the tree from which the skipped names are removed at
-- every level: the same outcome, the same events and the same local directories.
pub download_output_directory-prune :
    (net : Network) (remote_dir local_dir : String) (items : Entries)
    → download_output_directory net remote_dir local_dir items
      ≡ download_dir net remote_dir local_dir (prune items)
unfolding download_dir download_output_directory
download_output_directory-prune net remote_dir local_dir items =
    ap (λ (next : Action State (Unit {0})). enter_dir net remote_dir local_dir >> next)
      (loop-pruned net remote_dir local_dir items)

abbrev pub AlwaysAnswers : Network → Type 0
AlwaysAnswers net = (past : List Event) (event : Event) → net.answers past event ≡ ok tt

-- The action succeeds and gets these files.
abbrev pub Gets : Action State (Unit {0}) → List (String × String) → Type 0
Gets m files = Does got AnyState AnyState m files

module _ (net : Network) (answers : AlwaysAnswers net) where
  operate-Gets : (event : Event) → Gets (operate net event) (got event)
  operate-Gets event = record {
    succeeds = λ s p. answers s.events event;
    reaches = λ s p. tt;
    picks = λ s p. picked-last got s.events event;
  }

  add_local_dir-Gets : (dir : String) → Gets (add_local_dir dir) []
  unfolding add_local_dir
  add_local_dir-Gets dir = record {
    succeeds = λ s p. refl;
    reaches = λ s p. tt;
    picks = λ s p. sym (append-nil (picked got s.events));
  }

  ensure_local_dir-Gets : (dir : String) → Gets (ensure_local_dir net dir) []
  unfolding ensure_local_dir
  ensure_local_dir-Gets dir =
      let make : Gets (operate net (makedirs dir) >> add_local_dir dir) [] =
        Does-then (operate-Gets (makedirs dir)) (add_local_dir-Gets dir) in
      record {
        succeeds = λ s p. elim (Bool-cases (one_of dir s.local_dirs)) [
          | inl there ↦ rw there refl
          | inr missing ↦ rw missing (make.succeeds s p)
        ];
        reaches = λ s p. tt;
        picks = λ s p. elim (Bool-cases (one_of dir s.local_dirs)) [
          | inl there ↦ rw there (sym (append-nil (picked got s.events)))
          | inr missing ↦ rw missing (make.picks s p)
        ];
      }

  enter_dir-Gets : (remote_dir local_dir : String) → Gets (enter_dir net remote_dir local_dir) []
  unfolding enter_dir
  enter_dir-Gets remote_dir local_dir =
      Does-then (ensure_local_dir-Gets local_dir) (operate-Gets (remote_list remote_dir))

  mutual
    unfolding download_items files_of

    items-Gets :
        (remote_dir local_dir : String) (items : Entries)
        → Gets (download_items net remote_dir local_dir items) (files_of remote_dir local_dir items)
    items-Gets remote_dir local_dir empty = Does-pure
    items-Gets remote_dir local_dir (entry filename node items) =
        Does-then (item-Gets (join_path remote_dir filename) (join_path local_dir filename) node)
          (items-Gets remote_dir local_dir items)

    item-Gets :
        (remote_path local_path : String) (node : Node)
        → Gets
            (download_item net remote_path local_path node)
            (files_of_node remote_path local_path node)
    item-Gets remote_path local_path file = operate-Gets (get_file remote_path local_path)
    item-Gets remote_path local_path (directory items) =
        Does-then (enter_dir-Gets remote_path local_path) (items-Gets remote_path local_path items)

-- With a network whose operations all succeed, the Slurm download of a tree succeeds and gets exactly
-- the files below it, each once, in the order of the listings, to the same place below the local
-- directory; the Compute4PUNCH download does the same with the files that no skipped name hides.
pub download-Gets :
    (net : Network) (remote_dir local_dir : String) (items : Entries)
    → AlwaysAnswers net
    → Gets (download_dir net remote_dir local_dir items) (files_of remote_dir local_dir items)
      × Gets
          (download_output_directory net remote_dir local_dir items)
          (files_of remote_dir local_dir (prune items))
unfolding download_dir
download-Gets net remote_dir local_dir items answers =
    let down = λ (items : Entries).
      Does-then (enter_dir-Gets net answers remote_dir local_dir)
        (items-Gets net answers remote_dir local_dir items) in
    (
      down items,
      rw (download_output_directory-prune net remote_dir local_dir items) (down (prune items)),
    )
