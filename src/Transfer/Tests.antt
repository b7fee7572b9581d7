-- ===== src/Transfer/Tests.antt =====
-- Tests of the transfers of directories (reana_job_controller/slurmcern_job_manager.py,
-- compute4punch_job_manager.py) on a small tree.
use reana_job_controller.Prelude.{[], refl, ◌∷◌, ◌≡◌}
use reana_job_controller.Text.{join_path}
use reana_job_controller.Python.{}
use reana_job_controller.Ssh.{}
use reana_job_controller.Ssh.Effects.{}
use reana_job_controller.Ssh.Tests.{small_network}
use reana_job_controller.Transfer.{
  Entries, directory, download_dir, download_output_directory, empty, entry, file, files_of, prune,
}
use reana_job_controller.Transfer.Flat.{Gets, download-Gets, download_output_directory-prune}

-- A user's script in a directory below has a skipped name.
abbrev small_tree : Entries
small_tree = entry "plot.png" file (
    entry "tmp" (directory (entry "x" file empty))
      (entry "code" (directory (entry "run.sh" file (entry "a.py" file empty))) empty))

small_files :
    (files_of "/r" "/l" small_tree
      ≡ ("/r/plot.png", "/l/plot.png")
        ∷ ("/r/tmp/x", "/l/tmp/x")
        ∷ ("/r/code/run.sh", "/l/code/run.sh")
        ∷ ("/r/code/a.py", "/l/code/a.py")
        ∷ [])
    × (files_of "/r" "/l" (prune small_tree)
        ≡ ("/r/plot.png", "/l/plot.png") ∷ ("/r/code/a.py", "/l/code/a.py") ∷ [])
unfolding files_of prune join_path
small_files = (refl, refl)

download_output_directory-prune_example :
    download_output_directory small_network "/r" "/l" small_tree
    ≡ download_dir small_network "/r" "/l" (prune small_tree)
download_output_directory-prune_example =
    download_output_directory-prune small_network "/r" "/l" small_tree

download-Gets_example :
    Gets (download_dir small_network "/r" "/l" small_tree) (files_of "/r" "/l" small_tree)
    × Gets
        (download_output_directory small_network "/r" "/l" small_tree)
        (files_of "/r" "/l" (prune small_tree))
download-Gets_example = download-Gets small_network "/r" "/l" small_tree (λ past event. refl)
