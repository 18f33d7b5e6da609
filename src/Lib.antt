-- ===== src/Lib.antt =====
-- Models and proofs for efax-gtk, a front end to the efax fax driver.
--
-- The program's core is the EfaxController (src/efax_controller.cpp), which runs in the main thread. It
-- starts efax as a child process to send or to receive, makes the pages of a fax to send in a worker
-- thread that runs ghostscript, shows what efax prints, and saves the fax when efax has ended. Beside
-- it a SocketServer (src/socket_server.cpp) takes print jobs from other hosts in a thread of its own
-- and hands them to the main thread, which gives them to the controller. The efax program (efax/), which
-- the controller runs, encrypts the runs of each scan line before it encodes them for the modem, and
-- decrypts them on the other side. What the controller passes to efax comes from the settings file, which
-- the settings dialog (src/settings.cpp) writes and configure_prog (src/main.cpp) reads, and the number of
-- the receiver from the address book (src/addressbook.cpp). The threads pass data to each other in the queues
-- of src/utils/async_queue.h.
--
-- Which file models what:
--   Controller/Types      the members of EfaxController, Fax_item, and the signals as a list of events
--   Controller/Files      init_sendfax_parms, get_gs_parms, get_receive_parms, make_fax_thread,
--                         cleanup_fax_send_fail
--   Controller/Save       save_received_fax, save_sent_fax, receive_cleanup
--   Controller/Session    sendfax_impl, sendfax_slot, no_fax_made_slot, receive, stop, efax_closedown
--   Controller/Timer      timer_event
--   Controller/Run        the constructor and the calls that come to a controller, in any order in
--                         which the threads can make them
--   Socket/Peers          addr_compare and is_valid_peer of src/socket_server.cpp
--   Socket/Queue          add_file, remove_file, save_queued_faxes, read_queued_faxes
--   Socket/Mailbox        the end of read_socket, and get_fax_to_send, as steps under the mutex
--   Pipes                 the ends and modes of a PipeFifo of src/utils/pipes.cpp
--   Pipes/Write           the loop of PipeFifo::write on a blocking pipe
--   Reassembler           Utf8::Reassembler of src/utils/utf8_utils.cpp, and read_pipe_slot of the
--                         controller
--   Efax/Cipher           efax/hc128.h, and the encryption of a line in send_data and receive_data of
--                         efax/efax.c
--   Efax/Tables           the T.4 code tables of efax/efaxlib.c
--   Efax/Encoder          newENCODER, putcode and runtocode of efax/efaxlib.c
--   Efax/Decoder          newDECODER with its tables, and readfaxruns of efax/efax.c
--   Efax/Page             the data path of send_data and receive_data
--   Efax/Runs             xpad, xscale, xinvert and runor of efax/efaxlib.c
--   Efax/Capabilities     checkcap, mkdis, dislen, mkcap and mincap of efax/efax.c
--   Efax/Bits             numbers as strings of bits
--   Settings              the names of the settings, and the functions of src/settings.cpp and
--                         src/main.cpp that find one in a line
--   Settings/Write        SettingsDialog::write_config
--   Settings/Read         the loops of configure_prog and SettingsDialog::read_config
--   Settings/Configure    the rest of configure_prog, which fills prog_config
--   AddressBook           AddressBook and AddressDialog of src/addressbook.cpp
--   AsyncQueue            AsyncQueue and AsyncQueueDispatch of src/utils/async_queue.h
--   Folders               get_folders, write_paths_for_level and is_valid_drop_path of
--                         src/fax_list_manager.cpp
--   Instance              is_program_running of src/main.cpp
--   Messages              MessageText::cleanify of src/mainwindow.cpp
--   Prelude, Text, Outcome   numbers, lists, texts and the ways in which a piece of C++ can end
-- The other child modules hold the proofs about the code of their parent, and the modules called Tests
-- hold runs at concrete inputs.
--
-- The operating system (Os) is a record of functions on an abstract world, which every definition that
-- calls it takes as a parameter; so are g_utf8_validate and the name service. What the proofs need of
-- them is a hypothesis: fork() gives the parent a positive process id, and link(), unlink() and
-- rmdir() change only the files that they are for. A handler is a function from a machine to an
-- Outcome: its new machine, or std::exit, a PipeError, an endless wait, or a read out of range.
--
-- A loop over the pages of a fax goes on as long as the file system has a next page; it runs on the
-- host's fuel, and ends where there is fuel for one page more than there are. Where the fuel does not
-- reach, the outcome is `out_of_fuel`, which `Safe` admits like an exit. The other loops go through
-- lists, or count down the tries of mkdir(). The print job count is an unsigned int, which goes back
-- to 1 behind 9999; a number that is read from the file of queued jobs is taken modulo 2^32. In efax the
-- loop of readfaxruns runs on fuel, as many codes as there are bits, that of receive_data on a number of
-- calls of readfaxruns, of which six more than there are lines are enough, runor on the number of runs,
-- and the padding of a line on the bytes that are missing; an unsigned int of the cipher is a number below
-- 2^32, and of the `long` bit buffers the lowest 32 bits are kept, of which at most 31 are ever read.
-- The loops that split a setting into words, a path into folders and a message into lines run on the
-- length of the text, of which each round takes a byte at least. That of is_program_running runs on fuel.
--
-- A file of settings, addresses or folders is its bytes, which getline splits into lines (Text/Lines); that a file does not open for writing is an
-- argument. The conversions between UTF-8 and the locale, and to_lower, are arguments too, and the proofs
-- suppose that they leave ASCII text at the front of a text, and small letters, as they are.
--
-- Not modelled: the child's side of fork() but for efax's arguments, signal masks, the sockets
-- themselves, error messages of the socket server, the widgets of all the GTK windows and dialogs, the
-- search for the settings file, the working directory and the command line, the lists of faxes, the main
-- window but for the cleaning of messages, the logger and printing, the smart pointers and thread wrappers
-- of src/utils, efax's modem protocol, its page header, its readers and writers of images, and the libraries.
pub mod Prelude
pub mod Text
pub mod Os
pub mod Outcome
pub mod Pipes
pub mod Reassembler
pub mod Controller
pub mod Socket
pub mod Efax
pub mod Settings
pub mod AddressBook
pub mod AsyncQueue
pub mod Instance
pub mod Folders
pub mod Messages
