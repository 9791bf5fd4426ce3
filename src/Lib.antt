-- ===== src/Lib.antt =====
-- A model of the evdi kernel module and of the user library that talks to it: the painter that
-- passes a virtual display's pixels and events to a client, with the buffer objects, the cursor and
-- the modesetting that it works on, and the client's side of the same calls.
--
-- The parts and how they interact. A compositor damages a framebuffer and sets it as the scanout
-- buffer; the painter keeps the damage as dirty rectangles, in an array of 16 (Rect,
-- Painter.Dirty), and tells the client by an event if it asked (Painter.Update). The client grabs:
-- it is given the rectangles and their pixels (Painter.Grab, Painter.Pixels), with the cursor drawn
-- on top (Cursor), from the mapping of a buffer object (Gem). A vertical blank event that the
-- compositor hands over is held until the grab (Painter.Vblank). Events go to the client in order,
-- squashed where a later one makes an earlier useless (Event, Painter.Send); they also tell of
-- modes, power state and consoles (Painter.Display) and carry requests of the display data channel
-- (Painter.Ddcci). The compositor's atomic updates come in through the crtc and its planes
-- (Modeset). The connector offers modes while the painter is connected (Connector). A client
-- connects and disconnects (Painter.Connect); Painter.Session has all these operations as steps,
-- and Drm makes the device that they work on and releases it. The client is the user library
-- (Client): it looks for a card and opens it, asks the module for one where there is none (by the
-- files of Sysfs, which add to the table of Platform), connects, asks for updates, grabs, and takes
-- the events apart. Client.Grab.Whole puts the library's grab and the module's together.
--
-- Files. Rect models evdi_framebuffer_sanitize_rect of module/evdi_fb.c and expand_rect, rect_area,
-- merge_dirty_rects, collapse_dirty_rects of module/evdi_painter.c; Event the events of
-- module/evdi_drm.h and the pending list of module/evdi_painter.c; Gem module/evdi_gem.c; Cursor
-- module/evdi_cursor.c; Platform the table of devices of module/evdi_platform_drv.c and
-- module/evdi_platform_dev.c; Fb the framebuffers of module/evdi_fb.c, with the console's in
-- Fb.Console; Connector module/evdi_connector.c, with the kernel's refresh rate and edid functions
-- as parameters; Connector.I2c module/evdi_i2c.c; Modeset module/evdi_modeset.c; Compat
-- module/evdi_ioc32.c; Drm module/evdi_drm_drv.c; Sysfs module/evdi_sysfs.c; Client
-- library/evdi_lib.c and library/evdi_procfs.c, with a child for each group of calls; Painter and
-- its children the rest of module/evdi_painter.c, a child for each group of operations. World has
-- what the calls leave behind: references taken and dropped, events and vertical blanks sent.
-- Prelude has the shared helpers; Errno the results; Tests the theorems at concrete inputs. A
-- definition has the name of the function that it models, less the prefixes evdi_ and painter_
-- where these say nothing, and a file's children prove what their names say.
--
-- How state is modelled. The structs are records; pointers that may be NULL are options;
-- framebuffers, buffer objects, files, crtcs and vertical blank events are identities, which are
-- numbers; the objects are in a store. A mutex or a spin lock is held through each operation, so
-- each is one step. Answers of the kernel (allocation, copies to and from user space, mappings,
-- space in the file, the console in front) are parameters: Env, MapEnv, CreateEnv, GrabEnv, Space
-- and single Booleans. To the library the kernel is a record of system calls on a state of its own
-- (Os), what sysfs holds is another (Sysfs), and /proc is a list of entries with what their files
-- give (Process); texts are lists of bytes. Fields of 32 bits are their patterns, results of `int`
-- wrap by wrap32, and `unsigned` products are taken modulo 2 ^ 32. An operation of Platform that
-- follows a NULL pointer has no result. An ioctl that is repeated has the argument that the call before
-- it wrote back (Client.Ioctl). Of code under #if the branch of current kernels is modelled.
--
-- Loops are structural, but for the outer loop of merge_dirty_rects, which is on fuel: the number
-- of rectangles, which is enough since each turn moves on by one and the number never grows; for
-- the repetition of an ioctl that was interrupted, whose fuel is the kernel's `patience`, enough
-- from the first call on that is not; for the loop over the events that were read, where their
-- number is enough; and for the loop over the pages of evdi_fb_mmap, where one for each page and
-- one more is enough.
--
-- Not modelled: logging and debugfs; the wait for an answer of the display data channel, which is
-- split into the step before and the step after; registering platform devices; creating the
-- connector, the planes and the crtc; registering the console's framebuffer and drawing on it;
-- failures of the C library to allocate but for the handle; and texts that fill an array of
-- PATH_MAX, but for the link that is read.
pub mod Prelude
pub mod Rect
pub mod Errno
pub mod Event
pub mod Gem
pub mod World
pub mod Cursor
pub mod Painter
pub mod Tests
pub mod Platform
pub mod Fb
pub mod Connector
pub mod Compat
pub mod Drm
pub mod Client
pub mod Modeset
pub mod Sysfs
