-- ===== src/Slurm/Submission/Walk.antt =====
-- os.walk over a workspace, as _transfer_inputs (reana_job_controller/slurmcern_job_manager.py) uses
-- it: each directory with the names of its files, from the top down.
use reana_job_controller.Prelude.{List, String, [], ◌++◌, ◌∷◌}
use reana_job_controller.Text.{join_path}
use reana_job_controller.Transfer.{Entries, Node, directory, empty, entry, file}

unfoldable pub filenames_of : Entries → List String
filenames_of empty = []
filenames_of (entry name file items) = name ∷ filenames_of items
filenames_of (entry name (directory below) items) = filenames_of items

unfoldable mutual
  unfolding filenames_of

  pub walk_items : String → Entries → List (String × List String)
  walk_items dirpath empty = []
  walk_items dirpath (entry name node items) =
      walk_node (join_path dirpath name) node ++ walk_items dirpath items

  pub walk_node : String → Node → List (String × List String)
  walk_node path file = []
  walk_node path (directory items) = (path, filenames_of items) ∷ walk_items path items

unfoldable pub os_walk : String → Entries → List (String × List String)
unfolding walk_items
os_walk dirpath items = (dirpath, filenames_of items) ∷ walk_items dirpath items
