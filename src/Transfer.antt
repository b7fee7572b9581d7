-- ===== src/Transfer.antt =====
-- The recursive transfers of directories over SFTP: SlurmJobManagerCERN._download_dir
-- (reana_job_controller/slurmcern_job_manager.py) and
-- Compute4PUNCHJobManager._download_output_directory
-- (reana_job_controller/compute4punch_job_manager.py). A directory is a finite tree, listed in its
-- order; listdir_attr does not follow symbolic links.
pub mod Flat
pub mod Tests
use reana_job_controller.Prelude.{List, String, [], if◌then◌else◌, one_of, ◌++◌, ◌∷◌}
use reana_job_controller.Text.{join_path}
use reana_job_controller.Python.{Action, gets, ok, pure, ◌>>=◌, ◌>>◌}
use reana_job_controller.Ssh.{Event, Network, State, get_file, makedirs, operate, remote_list}

mutual
  pub data Node : Type 0 where
    file : Node
    directory : Entries → Node

  pub data Entries : Type 0 where
    empty : Entries
    entry : String → Node → Entries → Entries

add_local_dir : String → Action State (Unit {0})
add_local_dir dir s = (ok tt, record s { local_dirs = dir ∷ s.local_dirs })

-- skipped_output_files
abbrev pub skipped_output_files : List String
skipped_output_files =
    "cluster.log" ∷ "_condor_creds" ∷ "_condor_stdout" ∷ "_condor_stderr" ∷ "run.sh" ∷ "submit.jdl"
    ∷ "tmp" ∷ "var_tmp" ∷ []

module _ (net : Network) where
  -- os.path.exists(dir) or os.makedirs(dir)
  unfoldable pub ensure_local_dir : String → Action State (Unit {0})
  unfolding add_local_dir
  ensure_local_dir dir = do
    there ← gets (λ s. one_of dir s.local_dirs)
    (if there then pure tt else operate net (makedirs dir) >> add_local_dir dir)

  -- what comes before the loop in both functions
  unfoldable pub enter_dir : String → String → Action State (Unit {0})
  unfolding ensure_local_dir
  enter_dir remote_dir local_dir = do
    ensure_local_dir local_dir
    operate net (remote_list remote_dir)

  -- the loop of SlurmJobManagerCERN._download_dir, and what it does with an item
  unfoldable mutual
    unfolding enter_dir

    pub download_items : String → String → Entries → Action State (Unit {0})
    download_items remote_dir local_dir empty = pure tt
    download_items remote_dir local_dir (entry filename node items) =
        download_item (join_path remote_dir filename) (join_path local_dir filename) node
        >> download_items remote_dir local_dir items

    pub download_item : String → String → Node → Action State (Unit {0})
    download_item remote_path local_path file = operate net (get_file remote_path local_path)
    download_item remote_path local_path (directory items) =
        enter_dir remote_path local_path >> download_items remote_path local_path items

  unfoldable pub download_dir : String → String → Entries → Action State (Unit {0})
  unfolding enter_dir download_items
  download_dir remote_dir local_dir items =
      enter_dir remote_dir local_dir >> download_items remote_dir local_dir items

  -- the loop of Compute4PUNCHJobManager._download_output_directory over the items that `filter` lets
  -- through, and what it does with an item
  unfoldable mutual
    unfolding enter_dir

    pub download_outputs : String → String → Entries → Action State (Unit {0})
    download_outputs remote_dir local_dir empty = pure tt
    download_outputs remote_dir local_dir (entry filename node items) =
        let rest = download_outputs remote_dir local_dir items in
        let here =
          download_output (join_path remote_dir filename) (join_path local_dir filename) node in
        if one_of filename skipped_output_files then rest else here >> rest

    pub download_output : String → String → Node → Action State (Unit {0})
    download_output remote_path local_path file = operate net (get_file remote_path local_path)
    download_output remote_path local_path (directory items) =
        enter_dir remote_path local_path >> download_outputs remote_path local_path items

  unfoldable pub download_output_directory : String → String → Entries → Action State (Unit {0})
  unfolding enter_dir download_outputs
  download_output_directory remote_dir local_dir items =
      enter_dir remote_dir local_dir >> download_outputs remote_dir local_dir items

-- the directory without the skipped names, at every level
unfoldable mutual
  pub prune : Entries → Entries
  prune empty = empty
  prune (entry filename node items) =
      let rest = prune items in
      let here = prune_node node in
      if one_of filename skipped_output_files then rest else entry filename here rest

  pub prune_node : Node → Node
  prune_node file = file
  prune_node (directory items) = directory (prune items)

-- The files below a directory, each by the two paths that it is transferred between.
unfoldable mutual
  pub files_of : String → String → Entries → List (String × String)
  files_of remote_dir local_dir empty = []
  files_of remote_dir local_dir (entry filename node items) =
      files_of_node (join_path remote_dir filename) (join_path local_dir filename) node
      ++ files_of remote_dir local_dir items

  pub files_of_node : String → String → Node → List (String × String)
  files_of_node remote_path local_path file = (remote_path, local_path) ∷ []
  files_of_node remote_path local_path (directory items) = files_of remote_path local_path items

-- the file that was got, if the event is one of these
abbrev pub got : Event → List (String × String)
got (get_file remote local) = (remote, local) ∷ []
got event = []
